-- ===== src/Ring.antt =====
-- src/services/TraceRingBuffer.ts: a bounded buffer of finished traces, by cycle and by age.
--
-- The payload of a trace is the type S, and `bound` is `boundTracePayload` of
-- src/services/TraceSanitizers.ts with the buffer's options, here any function on traces.
pub mod Fifo
pub mod Listing
use kovael.Common.{
  ℕ, suc, ◌+◌, String, Bool, true, false, Option, none, some, List, [], ◌∷◌, ◌++◌, reverse, leb,
  ltb, ◌==◌, length, last_n, if◌then◌else◌,
}
use kovael.Table.{Table, get, set, delete, has}

pub record CycleTrace (S : Type 0) : Type 0 where
  pub cycle_id : String
  pub trace_id : String
  pub root_span_id : String
  pub started_at : ℕ
  pub ended_at : ℕ
  pub spans : List S

pub record Ring (S : Type 0) : Type 0 where
  pub capacity : ℕ
  pub order : List String
  pub by_cycle : Table (CycleTrace S)
  pub inserted : ℕ
  pub evicted : ℕ

pub record Options : Type 0 where
  pub max_trace_bytes : ℕ
  pub max_attribute_value_length : ℕ
  pub max_events_per_span : ℕ

pub data Error : Type 0 where
  bad_capacity bad_trace_bytes bad_value_length : Error

pub data Result {ℓ} (A : Type ℓ) : Type ℓ where
  ok : A → Result A
  err : Error → Result A

-- A natural number is an integer and is not negative, which leaves three of the four checks.
unfoldable pub create : {S : Type 0} → ℕ → Options → Result (Ring S)
create capacity opts =
    if ltb capacity 1
    then err bad_capacity
    else if ltb opts.max_trace_bytes 1024
    then err bad_trace_bytes
    else if ltb opts.max_attribute_value_length 16
    then err bad_value_length
    else ok (record { capacity = capacity; order = []; by_cycle = []; inserted = 0; evicted = 0 })

-- `order.slice(-Math.max(0, limit))`: minus zero is zero, from which `slice` takes everything.
unfoldable pub recent : ℕ → List String → List String
recent limit ks = if limit == 0 then ks else last_n limit ks

pub data Call (S : Type 0) : Type 0 where
  puts : CycleTrace S → Call S
  trims : ℕ → Call S

module _ {S : Type 0} where
  -- The loop of `put`: while the order is longer than the limit, drop its first cycle.
  unfoldable pub evict :
      ℕ → List String → Table (CycleTrace S) → ℕ → List String × Table (CycleTrace S) × ℕ
  evict limit [] t n = ([], t, n)
  evict limit (k ∷ ks) t n =
      let rest = evict limit ks (delete k t) (n + 1) in
      if ltb limit (length (k ∷ ks)) then rest else (k ∷ ks, t, n)

  unfoldable pub put : (CycleTrace S → CycleTrace S) → Ring S → CycleTrace S → Ring S
  put bound r trace =
      let bounded = bound trace in
      let t = set trace.cycle_id bounded r.by_cycle in
      let (ks, t', n) = evict r.capacity (r.order ++ trace.cycle_id ∷ []) t r.evicted in
      if has trace.cycle_id r.by_cycle
      then record r { by_cycle = t }
      else record r { by_cycle = t'; order = ks; inserted = r.inserted + 1; evicted = n }

  unfoldable pub get_trace : Ring S → String → Option (CycleTrace S)
  get_trace r cycle_id = get cycle_id r.by_cycle

  unfoldable pub found : Table (CycleTrace S) → List String → List (CycleTrace S)
  found t [] = []
  found t (k ∷ ks) = elim (get k t) [ some c ↦ c ∷ found t ks | none ↦ found t ks ]

  unfoldable pub list : Ring S → ℕ → List (CycleTrace S)
  unfolding recent found
  list r limit = found r.by_cycle (reverse (recent limit r.order))

  -- The loop of `trimTo`, which counts the cycles that were there to delete.
  unfoldable pub trim :
      ℕ → List String → Table (CycleTrace S) → ℕ → ℕ → List String × Table (CycleTrace S) × ℕ × ℕ
  trim limit [] t n dropped = ([], t, n, dropped)
  trim limit (k ∷ ks) t n dropped =
      let there = if has k t then 1 else 0 in
      let rest = trim limit ks (delete k t) (n + there) (dropped + there) in
      if ltb limit (length (k ∷ ks)) then rest else (k ∷ ks, t, n, dropped)

  unfoldable pub trim_to : Ring S → ℕ → Ring S × ℕ
  trim_to r retained =
      let (ks, t, n, dropped) = trim retained r.order r.by_cycle r.evicted 0 in
      (record r { order = ks; by_cycle = t; evicted = n }, dropped)

  unfoldable pub step : (CycleTrace S → CycleTrace S) → Ring S → Call S → Ring S
  unfolding put trim_to
  step bound r (puts trace) = put bound r trace
  step bound r (trims retained) = (trim_to r retained).0

  unfoldable pub run : (CycleTrace S → CycleTrace S) → Ring S → List (Call S) → Ring S
  run bound r [] = r
  run bound r (c ∷ cs) = run bound (step bound r c) cs
