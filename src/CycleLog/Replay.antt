-- ===== src/CycleLog/Replay.antt =====
-- src/services/CycleLog.ts: the cycles that a restart finds open, the count of sealed ones, and the
-- signatures of receipts.
--
-- The groups of a query come in an order of their own; here they come in the order of their first
-- rows. A signature is taken of a text by arguments.
use kovael.Common.{
  ℕ, suc, min, max, String, Bool, true, false, ◌&&◌, ◌||◌, Option, none, some, List, [], ◌∷◌,
  length, str_eq, if◌then◌else◌, ◌+++◌, decimal,
}
use kovael.Dispatches.{remove}
use kovael.CycleLog.{Log, Event, Kind, cycle_sealed, cycle_failed, trail, Receipt}

pub record OpenCycle : Type 0 where
  pub cycle_id : String
  pub last_phase : Kind
  pub last_actor : String
  pub event_count : ℕ
  pub started_at : ℕ
  pub last_event_at : ℕ

unfoldable pub is_terminal : Kind → Bool
is_terminal cycle_sealed = true
is_terminal cycle_failed = true
is_terminal _ = false

unfoldable pub is_sealed : Kind → Bool
is_sealed cycle_sealed = true
is_sealed _ = false

-- Some row of a cycle is of a kind.
unfoldable pub any_row : (Kind → Bool) → String → List Event → Bool
any_row f c [] = false
any_row f c (e ∷ es) = (str_eq e.cycle_id c && f e.kind) || any_row f c es

unfoldable pub is_closed : List Event → String → Bool
unfolding any_row is_terminal
is_closed rows c = any_row is_terminal c rows

-- The cycles of the rows, each once.
unfoldable pub cycle_ids : List Event → List String
unfolding remove
cycle_ids [] = []
cycle_ids (e ∷ es) = e.cycle_id ∷ remove e.cycle_id (cycle_ids es)

-- The row with the largest number, of rows in the order of their numbers.
unfoldable pub last_event : Event → List Event → Event
last_event e [] = e
last_event e (x ∷ xs) = last_event x xs

unfoldable pub earliest : ℕ → List Event → ℕ
earliest t [] = t
earliest t (e ∷ es) = earliest (min t e.timestamp) es

unfoldable pub newest : ℕ → List Event → ℕ
newest t [] = t
newest t (e ∷ es) = newest (max t e.timestamp) es

-- The groups of the query, from the rows of a cycle in their order.
unfoldable pub summary : String → List Event → Option OpenCycle
unfolding last_event earliest newest
summary c [] = none
summary c (e ∷ es) = some (record {
  cycle_id = c;
  last_phase = (last_event e es).kind;
  last_actor = (last_event e es).actor;
  event_count = length (e ∷ es);
  started_at = earliest e.timestamp es;
  last_event_at = newest e.timestamp es;
})

unfoldable pub open_only : Log → List String → List OpenCycle
unfolding is_closed summary trail
open_only l [] = []
open_only l (c ∷ cs) =
    let rest = open_only l cs in
    if is_closed l.rows c
    then rest
    else elim (summary c (trail l c)) [ none ↦ rest | some s ↦ s ∷ rest ]

unfoldable pub replay_open_cycles : Log → List OpenCycle
unfolding open_only cycle_ids
replay_open_cycles l = open_only l (cycle_ids l.rows)

unfoldable pub sealed_cycle_count : Log → ℕ
unfolding cycle_ids any_row is_sealed
sealed_cycle_count l = count (cycle_ids l.rows)
  where
    count : List String → ℕ
    count [] = 0
    count (c ∷ cs) = if any_row is_sealed c l.rows then suc (count cs) else count cs

unfoldable pub receipt_text : Receipt String → String
unfolding ◌+++◌ decimal
receipt_text r =
    r.cycle_id
    +++ ":"
    +++ r.merkle_root
    +++ ":"
    +++ decimal r.event_count
    +++ ":"
    +++ decimal r.sealed_at

unfoldable pub sign_receipt : (String → String → String) → Receipt String → String → String
unfolding receipt_text
sign_receipt sign r key = sign (receipt_text r) key

unfoldable pub verify_receipt :
    (String → String → String → Bool) → Receipt String → String → String → Bool
unfolding receipt_text
verify_receipt verify r signature key = verify (receipt_text r) key signature
