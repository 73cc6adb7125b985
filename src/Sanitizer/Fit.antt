-- ===== src/Sanitizer/Fit.antt =====
-- src/services/TraceSanitizers.ts: what is stored fits, or has no spans.
use kovael.Common.{
  ℕ, zero, suc, ◌-◌, ◌≤◌, ◌≡◌, refl, ◌∙◌, ap, ◌⊎◌, inr, [], arith, length, take, length-take-le,
  length-map,
}
use kovael.Ring.{CycleTrace, Options}
use kovael.Sanitizer.{cleaned, too_large, shrink, compact_only, strip, bound_trace_payload}

-- A trace is within the bytes, or has no spans.
abbrev pub Fits : {S : Type 0} → Options → (CycleTrace S → ℕ) → CycleTrace S → Type 0
Fits opts bytes t = (bytes t ≤ opts.max_trace_bytes) ⊎ (t.spans ≡ [])

module _ {S : Type 0} (opts : Options) (bytes : CycleTrace S → ℕ) where
  strip-Fits : (t : CycleTrace S) → Fits opts bytes (strip opts bytes t)
  unfolding strip too_large
  strip-Fits t = ground arith

  strip-length : (t : CycleTrace S) → length (strip opts bytes t).spans ≤ length t.spans
  unfolding strip
  strip-length t = ground arith

  compact-length :
      (f : S → S) (t : CycleTrace S) → length (compact_only opts bytes f t).spans ≤ length t.spans
  unfolding compact_only
  compact-length f t = ground (arith, length-map f t.spans)

  -- As many rounds as there are spans are enough: the loop's condition does not hold at its end.
  shrink_done :
      (fuel : ℕ) (t : CycleTrace S)
      → length t.spans ≤ fuel
      → (bytes (shrink opts bytes fuel t) ≤ opts.max_trace_bytes)
        ⊎ (length (shrink opts bytes fuel t).spans ≤ 1)
  unfolding shrink too_large
  shrink_done zero t h = inr (omega (arith, h))
  shrink_done (suc fuel) t h =
      let rest = record t { spans = take (length t.spans - 1) t.spans } in
      ground (
        arith,
        shrink_done fuel (record t { spans = take (length t.spans - 1) t.spans }),
        length-take-le (length t.spans - 1) t.spans,
      )

  shrink-length :
      (fuel : ℕ) (t : CycleTrace S) → length (shrink opts bytes fuel t).spans ≤ length t.spans
  unfolding shrink
  shrink-length zero t = omega arith
  shrink-length (suc fuel) t = ground (
    arith,
    shrink-length fuel (record t { spans = take (length t.spans - 1) t.spans }),
    length-take-le (length t.spans - 1) t.spans,
  )

  shrink_small :
      (fuel : ℕ) (t : CycleTrace S) → bytes t ≤ opts.max_trace_bytes → shrink opts bytes fuel t ≡ t
  unfolding shrink too_large
  shrink_small zero t h = refl
  shrink_small (suc fuel) t h = ground arith

  strip-compact_small :
      (f : S → S) (t : CycleTrace S)
      → bytes t ≤ opts.max_trace_bytes
      → strip opts bytes (compact_only opts bytes f t) ≡ t
  unfolding strip compact_only too_large
  strip-compact_small f t h = ground arith

  -- A bounded trace is within the bytes or has no spans, has no more spans than were given, and is
  -- the sanitized trace itself where that is within the bytes.
  pub bound_trace_payload-Fits :
      (sanitize compact : S → S) (t : CycleTrace S)
      → Fits opts bytes (bound_trace_payload opts bytes sanitize compact t)
        × (length (bound_trace_payload opts bytes sanitize compact t).spans ≤ length t.spans)
        × (bytes (cleaned opts bytes sanitize t) ≤ opts.max_trace_bytes
            → bound_trace_payload opts bytes sanitize compact t ≡ cleaned opts bytes sanitize t)
  unfolding bound_trace_payload
  bound_trace_payload-Fits sanitize compact t =
      let c = cleaned opts bytes sanitize t in
      let s = shrink opts bytes (length c.spans) c in
      (
        strip-Fits (compact_only opts bytes compact s),
        omega (
          arith,
          strip-length (compact_only opts bytes compact s),
          compact-length compact s,
          shrink-length (length c.spans) c,
          length-map sanitize t.spans,
        ),
        λ h.
            ap (λ x. strip opts bytes (compact_only opts bytes compact x))
              (shrink_small (length c.spans) c h)
            ∙ strip-compact_small compact c h,
      )
