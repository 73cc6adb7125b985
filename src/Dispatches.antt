-- ===== src/Dispatches.antt =====
-- src/MeshOrchestrator.ts: the counters of chair dispatches, fed by the events of the bus.
--
-- A set is its elements in order of insertion. An event is one of the five types that count, with
-- the request's identifier where it carries one; any other event counts for nothing.
pub mod Inflight
use kovael.Common.{
  ℕ, suc, ◌+◌, String, Bool, true, false, ◌||◌, Option, none, some, List, [], ◌∷◌, ◌++◌, ltb,
  length, str_eq, if◌then◌else◌,
}

pub record Metrics : Type 0 where
  pub attempts : ℕ
  pub retries : ℕ
  pub accepted : ℕ
  pub successes : ℕ
  pub failures : ℕ
  pub inflight : ℕ
  pub active : List String

abbrev pub empty : Metrics
empty = record {
  attempts = 0;
  retries = 0;
  accepted = 0;
  successes = 0;
  failures = 0;
  inflight = 0;
  active = [];
}

pub data DispatchEvent : Type 0 where
  started : Option String → DispatchEvent
  attempted : Option ℕ → DispatchEvent
  accepted_ : DispatchEvent
  succeeded failed : Option String → DispatchEvent
  other : DispatchEvent

unfoldable pub contains : String → List String → Bool
contains x [] = false
contains x (y ∷ ys) = str_eq y x || contains x ys

unfoldable pub add : String → List String → List String
unfolding contains
add x ys = if contains x ys then ys else ys ++ x ∷ []

unfoldable pub remove : String → List String → List String
remove x [] = []
remove x (y ∷ ys) = let rest = remove x ys in if str_eq y x then rest else y ∷ rest

unfoldable pub drop_first : List String → List String
unfolding remove
drop_first [] = []
drop_first (x ∷ xs) = remove x (x ∷ xs)

unfoldable pub with_active : Metrics → List String → Metrics
with_active m xs = record m { active = xs; inflight = length xs }

-- `finishChairDispatchMetric`: with no identifier the oldest request counts as finished.
unfoldable pub finish : Metrics → Option String → Metrics
unfolding with_active drop_first remove
finish m none = with_active m (drop_first m.active)
finish m (some r) =
    if str_eq r "" then with_active m (drop_first m.active) else with_active m (remove r m.active)

unfoldable pub is_retry : Option ℕ → Bool
is_retry none = false
is_retry (some n) = ltb 1 n

unfoldable pub start : Metrics → Option String → Metrics
unfolding with_active add
start m none = m
start m (some r) = if str_eq r "" then m else with_active m (add r m.active)

-- `recordChairDispatchMetric`
unfoldable pub record_event : Metrics → DispatchEvent → Metrics
unfolding start finish is_retry
record_event m (started r) = start m r
record_event m (attempted n) = record m {
  attempts = m.attempts + 1;
  retries = if is_retry n then m.retries + 1 else m.retries;
}
record_event m accepted_ = record m { accepted = m.accepted + 1 }
record_event m (succeeded r) = finish (record m { successes = m.successes + 1 }) r
record_event m (failed r) = finish (record m { failures = m.failures + 1 }) r
record_event m other = m

unfoldable pub run : Metrics → List DispatchEvent → Metrics
unfolding record_event
run m [] = m
run m (e ∷ es) = run (record_event m e) es
