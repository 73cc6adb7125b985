-- ===== src/Examples/RingRuns.antt =====
-- src/services/TraceRingBuffer.ts: three traces in a buffer of two.
use kovael.Common.{ℕ, ◌≡◌, refl, String, List, [], ◌∷◌}
use kovael.Table.{set}
use kovael.Ring.{CycleTrace, Ring, Options, Call, puts, create, put, run}
use kovael.Ring.Fifo.{IsRing, create-run-IsRing, put-newest, newest}

abbrev trace : String → CycleTrace ℕ
trace c = record {
  cycle_id = c;
  trace_id = "t";
  root_span_id = "s";
  started_at = 1;
  ended_at = 2;
  spans = 5 ∷ [];
}

abbrev unbounded : CycleTrace ℕ → CycleTrace ℕ
unbounded c = c

abbrev options : Options
options = record {
  max_trace_bytes = 1024;
  max_attribute_value_length = 16;
  max_events_per_span = 0;
}

abbrev empty_ring : Ring ℕ
empty_ring = record { capacity = 2; order = []; by_cycle = []; inserted = 0; evicted = 0 }

abbrev calls : List (Call ℕ)
calls = puts (trace "a") ∷ puts (trace "b") ∷ puts (trace "a") ∷ []

abbrev full_ring : Ring ℕ
full_ring = run unbounded empty_ring calls

create-run-IsRing_example : IsRing full_ring
create-run-IsRing_example =
    create-run-IsRing unbounded 2 options calls empty_ring (unfold create in refl)

put-newest_example :
    (put unbounded full_ring (trace "c")).by_cycle
    ≡ newest full_ring.capacity (set "c" (trace "c") full_ring.by_cycle)
put-newest_example = put-newest unbounded full_ring (trace "c") create-run-IsRing_example
