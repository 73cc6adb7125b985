-- ===== src/Limiter.antt =====
-- src/services/RateLimiter.ts: a token bucket for each client, with the least recently used evicted.
--
-- Tokens are counted in millionths and `refillPerSec` in thousandths, so that a refill of
-- `elapsedMs / 1000 * refillPerSec` tokens is a whole number of millionths. A table's first entry is
-- the least recently used one. The key of a client is an argument: Client gives it.
pub mod Bounds
pub mod Client
pub mod Rate
use kovael.Common.{
  ℕ, suc, ◌+◌, ◌-◌, ◌*◌, ◌/◌, String, Bool, true, false, Option, none, some, List, [], ◌∷◌, leb,
  ltb, min, max, if◌then◌else◌, str_eq,
}
use kovael.Table.{Table, get, set, delete, size}

pub record Config : Type 0 where
  pub capacity : ℕ
  pub refill_per_sec : ℕ  -- in thousandths
  pub max_entries : ℕ

abbrev pub default_config : Config
default_config = record { capacity = 60; refill_per_sec = 1000; max_entries = 10_000 }

pub record Decision : Type 0 where
  pub allowed : Bool
  pub remaining : ℕ
  pub retry_after_s : ℕ

pub record Bucket : Type 0 where
  pub tokens : ℕ  -- in millionths
  pub last_refill_ms : ℕ

pub record Limiter : Type 0 where
  pub cfg : Config
  pub buckets : Table Bucket

pub data Error : Type 0 where
  bad_capacity bad_refill bad_entries : Error

pub data Result {ℓ} (A : Type ℓ) : Type ℓ where
  ok : A → Result A
  err : Error → Result A

unfoldable pub create : Config → Result Limiter
create cfg =
    if leb cfg.capacity 0
    then err bad_capacity
    else if leb cfg.refill_per_sec 0
    then err bad_refill
    else if leb cfg.max_entries 0
    then err bad_entries
    else ok (record { cfg = cfg; buckets = [] })

unfoldable pub fresh : Config → ℕ → Bucket
fresh cfg now = record { tokens = cfg.capacity * 1_000_000; last_refill_ms = now }

-- `this.buckets.keys().next().value`, deleted.
unfoldable pub drop_oldest : Table Bucket → Table Bucket
drop_oldest [] = []
drop_oldest ((k, b) ∷ t) = delete k ((k, b) ∷ t)

-- A new client at the limit takes the oldest one's place.
unfoldable pub make_room : Config → Table Bucket → Table Bucket
unfolding drop_oldest
make_room cfg t = if leb cfg.max_entries (size t) then drop_oldest t else t

-- The table with the key's bucket written last, and the bucket.
unfoldable pub touch : Limiter → String → ℕ → Table Bucket × Bucket
touch l key now = elim (get key l.buckets) [
  | some b ↦ (set key b (delete key l.buckets), b)
  | none ↦ (set key (fresh l.cfg now) (make_room l.cfg l.buckets), fresh l.cfg now)
]

unfoldable pub refill : Config → Bucket → ℕ → Bucket
refill cfg b now = if leb now b.last_refill_ms then b else record {
  tokens =
      min (cfg.capacity * 1_000_000) (b.tokens + (now - b.last_refill_ms) * cfg.refill_per_sec);
  last_refill_ms = now;
}

-- `Math.ceil(deficit / refillPerSec)`, with the deficit in millionths.
unfoldable pub seconds_until : Config → ℕ → ℕ
seconds_until cfg deficit =
    max 1 ((deficit + (cfg.refill_per_sec * 1000 - 1)) / (cfg.refill_per_sec * 1000))

-- The bucket after a request, and the decision.
unfoldable pub spend : Config → Bucket → Bucket × Decision
unfolding seconds_until
spend cfg b =
    if leb 1_000_000 b.tokens
    then (
      record b { tokens = b.tokens - 1_000_000 },
      record { allowed = true; remaining = (b.tokens - 1_000_000) / 1_000_000; retry_after_s = 0 },
    )
    else (
      b,
      record {
        allowed = false;
        remaining = 0;
        retry_after_s = seconds_until cfg (1_000_000 - b.tokens);
      },
    )

unfoldable pub consume : Limiter → String → ℕ → Limiter × Decision
consume l key now =
    let (t, b) = touch l key now in
    let (b', d) = spend l.cfg (refill l.cfg b now) in (record l { buckets = set key b' t }, d)

unfoldable pub tracked : Limiter → ℕ
tracked l = size l.buckets

unfoldable pub reset : Limiter → Limiter
reset l = record l { buckets = [] }

-- The decisions on a list of requests, oldest first.
unfoldable pub run : Limiter → List (String × ℕ) → Limiter × List (String × Decision)
run l [] = (l, [])
run l ((key, now) ∷ rs) =
    let (l', d) = consume l key now in let (l'', ds) = run l' rs in (l'', (key, d) ∷ ds)
