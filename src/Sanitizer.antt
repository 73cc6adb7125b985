-- ===== src/Sanitizer.antt =====
-- src/services/TraceSanitizers.ts: a trace is cut down to the bytes that the buffer allows.
--
-- `sanitize` and `compact` are what the code does to one span (`sanitizeSpan`, and the span with
-- `compactAttributes` and no events), and `bytes` is `jsonByteLength`, here any functions. A
-- natural number is finite, so `finiteNumber` leaves it.
pub mod Fit
use kovael.Common.{
  ℕ, zero, suc, ◌+◌, ◌-◌, String, Bool, true, false, ◌&&◌, List, [], ◌∷◌, map, leb, ltb, ◌==◌,
  length, take, clip, units, if◌then◌else◌, ◌+++◌, decimal,
}
use kovael.Ring.{CycleTrace, Options}

unfoldable pub safe_string : String → ℕ → String
unfolding ◌+++◌ decimal
safe_string s limit =
    if leb (units s) limit
    then s
    else clip limit s +++ "[truncated " +++ decimal (units s - limit) +++ " chars]"

module _ {S : Type 0} (opts : Options) (bytes : CycleTrace S → ℕ) where
  unfoldable pub cleaned : (S → S) → CycleTrace S → CycleTrace S
  unfolding safe_string
  cleaned sanitize t = record {
    cycle_id = safe_string t.cycle_id opts.max_attribute_value_length;
    trace_id = safe_string t.trace_id opts.max_attribute_value_length;
    root_span_id = safe_string t.root_span_id opts.max_attribute_value_length;
    started_at = t.started_at;
    ended_at = t.ended_at;
    spans = map sanitize t.spans;
  }

  unfoldable pub too_large : CycleTrace S → Bool
  too_large t = ltb opts.max_trace_bytes (bytes t)

  -- The loop that drops the last span, with fuel.
  unfoldable pub shrink : ℕ → CycleTrace S → CycleTrace S
  unfolding too_large
  shrink zero t = t
  shrink (suc fuel) t =
      let rest = shrink fuel (record t { spans = take (length t.spans - 1) t.spans }) in
      if too_large t && ltb 1 (length t.spans) then rest else t

  unfoldable pub compact_only : (S → S) → CycleTrace S → CycleTrace S
  unfolding too_large
  compact_only compact t =
      if too_large t && length t.spans == 1 then record t { spans = map compact t.spans } else t

  unfoldable pub strip : CycleTrace S → CycleTrace S
  unfolding too_large
  strip t = if too_large t then record t { spans = [] } else t

  unfoldable pub bound_trace_payload : (S → S) → (S → S) → CycleTrace S → CycleTrace S
  unfolding cleaned shrink compact_only strip
  bound_trace_payload sanitize compact t =
      let c = cleaned sanitize t in strip (compact_only compact (shrink (length c.spans) c))
