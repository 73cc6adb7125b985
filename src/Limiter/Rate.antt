-- ===== src/Limiter/Rate.antt =====
-- src/services/RateLimiter.ts: how many requests a client gets through, and when to come back.
use kovael.Common.{
  ℕ, ◌+◌, ◌-◌, ◌*◌, ◌/◌, ◌≤◌, ◌<◌, ◌≡◌, refl, ◌∙◌, ap, String, Bool, true, false, none, some, List,
  [], ◌∷◌, max, if◌then◌else◌, str_eq, str_eq_self, eq_iff, arith, Option-cases, inl, inr,
  Bool-cases, All,
}
use native.Mathlib.Nat.{mul-le-mul_right}
use kovael.Table.{get, set, delete, has}
use kovael.Table.Laws.{get-set, get-delete}
use kovael.Limiter.{
  Config, Bucket, Limiter, Decision, touch, refill, spend, seconds_until, consume, run,
}

-- The bucket of a client after one of its requests.
abbrev pub served : Config → Bucket → ℕ → Bucket × Decision
served cfg b now = spend cfg (refill cfg b now)

get-consume :
    (l : Limiter) (j k : String) (now : ℕ) (b : Bucket)
    → get j l.buckets ≡ some b
    → get k (consume l j now).0.buckets
      ≡ (if str_eq j k then some (served l.cfg b now).0 else get k l.buckets)
unfolding consume touch
get-consume l j k now b e =
    let t = delete j l.buckets in
    ground (
      arith,
      get-set j k (served l.cfg b now).0 (set j b t),
      get-set j k b t,
      get-delete j k l.buckets,
    )

consume-decision :
    (l : Limiter) (j : String) (now : ℕ) (b : Bucket)
    → get j l.buckets ≡ some b
    → (consume l j now).1 ≡ (served l.cfg b now).1
unfolding consume touch
consume-decision l j now b e = ground arith

abbrev pub cost : Bool → ℕ
cost true = 1_000_000
cost false = 0

-- A request pays for itself out of what the bucket held and what flowed in since the last refill.
served_pays :
    (cfg : Config) (b : Bucket) (now : ℕ)
    → let (b', d) = served cfg b now in
      (b.last_refill_ms ≤ b'.last_refill_ms)
      × (cost d.allowed + b'.tokens
          ≤ b.tokens + (b'.last_refill_ms - b.last_refill_ms) * cfg.refill_per_sec)
unfolding spend refill
served_pays cfg b now = ground arith

served_until :
    (cfg : Config) (b : Bucket) (now until : ℕ)
    → now ≤ until
    → b.last_refill_ms ≤ until
    → (served cfg b now).0.last_refill_ms ≤ until
unfolding spend refill
served_until cfg b now until h g = ground arith

span-add : (a b c r : ℕ) → a ≤ b → b ≤ c → (b - a) * r + (c - b) * r ≡ (c - a) * r
span-add a b c r h g =
    let e : c - a ≡ (b - a) + (c - b) = omega arith in omega (arith, ap (λ (x : ℕ). x * r) e)

ceil_covers : (d m : ℕ) → 1 ≤ m → d ≤ ((d + (m - 1)) / m) * m
ceil_covers d m h = grind arith

-- What a client's granted requests have cost.
unfoldable pub paid : String → List (String × Decision) → ℕ
paid key [] = 0
paid key ((j, d) ∷ ds) = (if str_eq j key then cost d.allowed else 0) + paid key ds

-- Every request comes from a tracked client, at a time up to `until`.
abbrev pub IsCall : Limiter → ℕ → String × ℕ → Type 0
IsCall l until (j, now) = (has j l.buckets ≡ true) × (now ≤ until)

consume-cfg : (l : Limiter) (j : String) (now : ℕ) → (consume l j now).0.cfg ≡ l.cfg
unfolding consume
consume-cfg l j now = refl

has-consume :
    (l : Limiter) (j k : String) (now : ℕ)
    → has j l.buckets ≡ true
    → has k l.buckets ≡ true
    → has k (consume l j now).0.buckets ≡ true
has-consume l j k now h g = elim (Option-cases (get j l.buckets)) [
  | inl e ↦ ground arith
  | inr (b, e) ↦ ground (arith, get-consume l j k now b e)
]

All-IsCall :
    (l : Limiter) (j : String) (now until : ℕ) (rs : List (String × ℕ))
    → has j l.buckets ≡ true
    → All (IsCall l until) rs
    → All (IsCall (consume l j now).0 until) rs
All-IsCall l j now until [] h a = tt
All-IsCall l j now until ((k, t) ∷ rs) h a =
    ((has-consume l j k now h a.0.0, a.0.1), All-IsCall l j now until rs h a.1)

-- Whatever the other tracked clients do, a client gets no more through up to a time than its bucket
-- held plus what flows in until then, in millionths of a request.
pub paid-le :
    (rs : List (String × ℕ)) (l : Limiter) (key : String) (b : Bucket) (until : ℕ)
    → get key l.buckets ≡ some b
    → b.last_refill_ms ≤ until
    → All (IsCall l until) rs
    → paid key (run l rs).1 ≤ b.tokens + (until - b.last_refill_ms) * l.cfg.refill_per_sec
unfolding run paid spend refill consume
paid-le [] l key b until e h a = omega arith
paid-le ((j, now) ∷ rs) l key b until e h (a, more) = elim (Bool-cases (str_eq j key)) [
  | inl own ↦
      let own_b : get j l.buckets ≡ some b = rw ((eq_iff j key).0 own) e in
      let (b', d) = served l.cfg b now in
      let (later, pays) = served_pays l.cfg b now in
      let bound = served_until l.cfg b now until a.1 h in
      let ih =
        paid-le rs (consume l j now).0 key b' until (get-consume l j key now b own_b ∙ rw own refl)
          bound (All-IsCall l j now until rs a.0 more) in
      rw (own, consume-decision l j now b own_b)
        (omega (
          arith,
          ih,
          pays,
          span-add b.last_refill_ms b'.last_refill_ms until l.cfg.refill_per_sec later bound,
        ))
  | inr other ↦ elim (Option-cases (get j l.buckets)) [
    | inl none_there ↦ absurd (untracked none_there)
    | inr (c, there) ↦ rw other (
        omega (
          arith,
          paid-le rs (consume l j now).0 key b until (get-consume l j key now c there ∙ rw other e)
              h (All-IsCall l j now until rs a.0 more),
        ))
  ]
]
  where
    untracked : get j l.buckets ≡ none → ⊥
    untracked n = ground arith

enough :
    (cfg : Config) (d gap : ℕ)
    → 1 ≤ cfg.refill_per_sec
    → seconds_until cfg d * 1000 ≤ gap
    → (1 ≤ seconds_until cfg d) × (d ≤ gap * cfg.refill_per_sec)
unfolding seconds_until
enough cfg d gap r h =
    let m = cfg.refill_per_sec * 1000 in
    let q = (d + (m - 1)) / m in
    let s = max 1 q in
    let covers : d ≤ q * m = ceil_covers d m (omega arith) in
    let more : q * m ≤ s * m = mul-le-mul_right m (omega arith) in
    let longer : s * 1000 * cfg.refill_per_sec ≤ gap * cfg.refill_per_sec =
      mul-le-mul_right cfg.refill_per_sec h in
    (omega arith, omega arith)

served_refused :
    (cfg : Config) (b : Bucket) (now : ℕ)
    → b.last_refill_ms ≤ now
    → (served cfg b now).1.allowed ≡ false
    → let (c, d) = served cfg b now in
      (c.last_refill_ms ≡ now)
      × (c.tokens < 1_000_000)
      × (d.retry_after_s ≡ seconds_until cfg (1_000_000 - c.tokens))
unfolding spend refill
served_refused cfg b now h refused = ground arith

served_granted :
    (cfg : Config) (c : Bucket) (later : ℕ)
    → 1 ≤ cfg.capacity
    → c.last_refill_ms < later
    → 1_000_000 ≤ c.tokens + (later - c.last_refill_ms) * cfg.refill_per_sec
    → (served cfg c later).1.allowed ≡ true
unfolding spend refill
served_granted cfg c later h t e = ground arith

served_retry :
    (cfg : Config) (b : Bucket) (now later : ℕ)
    → 1 ≤ cfg.capacity
    → 1 ≤ cfg.refill_per_sec
    → b.last_refill_ms ≤ now
    → (served cfg b now).1.allowed ≡ false
    → now + (served cfg b now).1.retry_after_s * 1000 ≤ later
    → (served cfg (served cfg b now).0 later).1.allowed ≡ true
served_retry cfg b now later cap r h refused wait =
    let (at, few, s) = served_refused cfg b now h refused in
    let c = (served cfg b now).0 in
    let (long, flows) = enough cfg (1_000_000 - c.tokens) (later - now) r (omega (arith, s)) in
    served_granted cfg c later cap (omega (arith, at, s, long))
      (omega (arith, ap (λ (t : ℕ). (later - t) * cfg.refill_per_sec) at, flows, few))

-- A client that is refused and comes back after the advised seconds gets through, unless its clock
-- was set back.
pub consume_retry :
    (l : Limiter) (key : String) (b : Bucket) (now later : ℕ)
    → 1 ≤ l.cfg.capacity
    → 1 ≤ l.cfg.refill_per_sec
    → get key l.buckets ≡ some b
    → b.last_refill_ms ≤ now
    → (consume l key now).1.allowed ≡ false
    → now + (consume l key now).1.retry_after_s * 1000 ≤ later
    → (consume (consume l key now).0 key later).1.allowed ≡ true
consume_retry l key b now later cap r e h refused wait =
    let l' = (consume l key now).0 in
    let d = consume-decision l key now b e in
    let there : get key l'.buckets ≡ some (served l.cfg b now).0 =
      get-consume l key key now b e ∙ rw (str_eq_self key) refl in
    rw (consume-decision l' key later (served l.cfg b now).0 there, consume-cfg l key now)
      (served_retry l.cfg b now later cap r h (rw d at refused) (rw d at wait))
