-- ===== src/CycleLog.antt =====
-- src/services/CycleLog.ts: the append-only ledger of cycle events, with sealing.
--
-- The table `cycle_events` is the list of its rows in the order of insertion. JSON text, SHA-256 and
-- the hash's input are what the code takes from Node: a row keeps the payload's text, and `Hashing`
-- holds the digests.
pub mod Merkle
pub mod Sequence
pub mod Replay
pub mod Open
use kovael.Common.{
  ℕ, zero, suc, ◌+◌, String, Bool, true, false, not, ◌||◌, Option, none, some, List, [], ◌∷◌, ◌++◌,
  map, max, ltb, if◌then◌else◌, str_eq, or_default, length,
}
use kovael.Table.{Table, get, set}

pub data Kind : Type 0 where
  cycle_started phase_transition task_claimed task_running dispatch_sent dispatch_reply : Kind
  retry_scheduled retry_exhausted verifier_scored stop_decision receipt_issued : Kind
  cycle_sealed cycle_failed : Kind

pub record Event : Type 0 where
  pub cycle_id : String
  pub seq : ℕ
  pub kind : Kind
  pub timestamp : ℕ
  pub actor : String
  pub payload : String

pub record Log : Type 0 where
  pub rows : List Event
  pub seq_counters : Table ℕ

-- `SELECT cycle_id, MAX(seq) … GROUP BY cycle_id`, and the counters one past each maximum.
unfoldable pub count_row : Table ℕ → Event → Table ℕ
count_row t e = set e.cycle_id (max (or_default (get e.cycle_id t) 0) (e.seq + 1)) t

unfoldable pub preload : Table ℕ → List Event → Table ℕ
preload t [] = t
preload t (e ∷ es) = preload (count_row t e) es

-- The constructor, on a database that may hold rows.
unfoldable pub open_log : List Event → Log
unfolding preload count_row
open_log rows = record { rows = rows; seq_counters = preload [] rows }

unfoldable pub next_seq : Log → String → ℕ
next_seq l cycle_id = or_default (get cycle_id l.seq_counters) 0

unfoldable pub append : Log → String → Kind → String → String → ℕ → Log × Event
unfolding next_seq
append l cycle_id kind actor payload now =
    let event : Event = record {
      cycle_id = cycle_id;
      seq = next_seq l cycle_id;
      kind = kind;
      timestamp = now;
      actor = actor;
      payload = payload;
    } in
    (
      record {
        rows = l.rows ++ event ∷ [];
        seq_counters = set cycle_id (next_seq l cycle_id + 1) l.seq_counters;
      },
      event,
    )

unfoldable pub of_cycle : String → List Event → List Event
of_cycle c [] = []
of_cycle c (e ∷ es) = let rest = of_cycle c es in if str_eq e.cycle_id c then e ∷ rest else rest

-- `ORDER BY seq ASC`: insertion of each row before the first with a larger number.
unfoldable pub insert_by_seq : Event → List Event → List Event
insert_by_seq e [] = e ∷ []
insert_by_seq e (x ∷ xs) =
    let rest = insert_by_seq e xs in if ltb x.seq e.seq then x ∷ rest else e ∷ x ∷ xs

unfoldable pub order_by_seq : List Event → List Event
unfolding insert_by_seq
order_by_seq [] = []
order_by_seq (e ∷ es) = insert_by_seq e (order_by_seq es)

unfoldable pub trail : Log → String → List Event
trail l cycle_id = order_by_seq (of_cycle cycle_id l.rows)

-- What `sealCycle` takes from Node: the hash of a row, of two digests side by side, and of the text
-- 'empty'; the hexadecimal text of a digest is the digest.
pub record Hashing : Type 1 where
  pub Digest : Type 0
  pub leaf : Event → Digest
  pub pair : Digest → Digest → Digest
  pub of_empty : Digest

-- `level[0]`
abbrev pub first_or {ℓ} : {D : Type ℓ} → D → List D → D
first_or e [] = e
first_or e (d ∷ ds) = d

module _ {D : Type 0} (pair : D → D → D) where
  -- One round of the loop: the digests of neighbours, the last one paired with itself.
  unfoldable pub next_level : List D → List D
  next_level [] = []
  next_level (l ∷ []) = pair l l ∷ []
  next_level (l ∷ r ∷ rest) = pair l r ∷ next_level rest

  -- `while (level.length > 1)`, with fuel.
  unfoldable pub reduce : ℕ → List D → List D
  unfolding next_level
  reduce zero level = level
  reduce (suc fuel) level =
      let rest = reduce fuel (next_level level) in if ltb 1 (length level) then rest else level

  -- The first digest of the last level; with no leaves, the hash of 'empty'.
  unfoldable pub merkle_root : D → List D → D
  unfolding reduce
  merkle_root of_empty leaves = first_or of_empty (reduce (length leaves) leaves)

pub record Receipt (D : Type 0) : Type 0 where
  pub cycle_id : String
  pub merkle_root : D
  pub event_count : ℕ
  pub sealed_at : ℕ

-- The body of `sealCycle` after it has read the trail: `none` is the exception on a cycle without
-- events, and `write` gives the payload's JSON text.
unfoldable pub seal_events :
    (h : Hashing)
    → (h.Digest → ℕ → String)
    → Log
    → String
    → ℕ
    → List Event
    → Option (Log × Receipt h.Digest)
unfolding append merkle_root
seal_events h write l cycle_id now [] = none
seal_events h write l cycle_id now (e ∷ es) =
    let root = merkle_root h.pair h.of_empty (map h.leaf (e ∷ es)) in
    let count = length (e ∷ es) in
    some (
      (append l cycle_id cycle_sealed "orchestrator" (write root count) now).0,
      record { cycle_id = cycle_id; merkle_root = root; event_count = count; sealed_at = now },
    )

unfoldable pub seal_cycle :
    (h : Hashing) → (h.Digest → ℕ → String) → Log → String → ℕ → Option (Log × Receipt h.Digest)
unfolding seal_events trail
seal_cycle h write l cycle_id now = seal_events h write l cycle_id now (trail l cycle_id)

unfoldable pub total_events : Log → ℕ
total_events l = length l.rows

-- What happens to a log: an event is written, or the process restarts on the same database.
pub data Act : Type 0 where
  appends : String → Kind → String → String → ℕ → Act
  restarts : Act

unfoldable pub step : Log → Act → Log
unfolding append open_log
step l (appends c k actor payload now) = (append l c k actor payload now).0
step l restarts = open_log l.rows

unfoldable pub run : Log → List Act → Log
run l [] = l
run l (a ∷ acts) = run (step l a) acts
