-- ===== src/Examples/SanitizerRuns.antt =====
-- src/services/TraceSanitizers.ts: a trace of three spans that is cut down to two.
use kovael.Common.{ℕ, ◌+◌, ◌*◌, ◌≤◌, ◌≡◌, refl, String, [], ◌∷◌, length, take}
use kovael.Ring.{CycleTrace, Options}
use kovael.Sanitizer.{cleaned, bound_trace_payload}
use kovael.Sanitizer.Fit.{Fits, bound_trace_payload-Fits}

abbrev limits : Options
limits = record { max_trace_bytes = 1024; max_attribute_value_length = 16; max_events_per_span = 2 }

-- Each span counts for 500 bytes.
abbrev weigh : CycleTrace String → ℕ
weigh t = 20 + 500 * length t.spans

abbrev same_span : String → String
same_span s = s

abbrev long : CycleTrace String
long = record {
  cycle_id = "c1";
  trace_id = "t1";
  root_span_id = "s1";
  started_at = 1;
  ended_at = 9;
  spans = "s1" ∷ "s2" ∷ "s3" ∷ [];
}

cut_to_two : (bound_trace_payload limits weigh same_span same_span long).spans ≡ "s1" ∷ "s2" ∷ []
unfolding bound_trace_payload take
cut_to_two = refl

bound_trace_payload-Fits_example :
    Fits limits weigh (bound_trace_payload limits weigh same_span same_span long)
    × (length (bound_trace_payload limits weigh same_span same_span long).spans ≤ 3)
    × (weigh (cleaned limits weigh same_span long) ≤ 1024
        → bound_trace_payload limits weigh same_span same_span long
          ≡ cleaned limits weigh same_span long)
bound_trace_payload-Fits_example = bound_trace_payload-Fits limits weigh same_span same_span long
