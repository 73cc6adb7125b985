-- ===== src/Ring/Listing.antt =====
-- src/services/TraceRingBuffer.ts: `list` against the entries of the buffer.
use kovael.Common.{
  ℕ, zero, suc, ◌-◌, ◌<◌, ◌≡◌, refl, ap, ◌∙◌, sym, String, false, none, List, [], ◌∷◌, ◌++◌,
  reverse, arith, length, drop, length-map, length-reverse, map-drop, inl, inr, str_eq, str_eq_self,
  eq_iff, All, Option-cases, last_n, ◌==◌,
}
use mathlib.Core.List.{reverse-cons, append-nil}
use kovael.Table.{Table, get, keys, values, size}
use kovael.Table.Laws.{Unique, get-drop}
use kovael.Ring.{CycleTrace, Ring, found, recent, list}
use kovael.Ring.Fifo.{IsRing, newest}

module _ {S : Type 0} where
  absent :
      (k : String) (t : Table (CycleTrace S))
      → get k t ≡ none
      → All (λ j. str_eq k j ≡ false) (keys t)
  unfolding get
  absent k [] h = tt
  absent k ((j, v) ∷ t) h = ground (arith, eq_iff k j, eq_iff j k, absent k t)

  found_cons :
      (k : String) (v : CycleTrace S) (t : Table (CycleTrace S)) (ks : List String)
      → All (λ j. str_eq k j ≡ false) ks
      → found ((k, v) ∷ t) ks ≡ found t ks
  unfolding found get
  found_cons k v t [] a = refl
  found_cons k v t (j ∷ ks) a = ground (arith, found_cons k v t ks a.1)

  found-keys :
      (d : ℕ) (t : Table (CycleTrace S)) → Unique t → found t (keys (drop d t)) ≡ values (drop d t)
  unfolding found drop get
  found-keys zero [] u = refl
  found-keys zero ((k, v) ∷ t) u =
      rw (str_eq_self k, found)
        (ap (◌∷◌ v) (found_cons k v t (keys t) (absent k t u.0) ∙ found-keys zero t u.1))
  found-keys (suc d) [] u = refl
  found-keys (suc d) ((k, v) ∷ t) u =
      found_cons k v t (keys (drop d t)) (absent k (drop d t) (get-drop d k t u.0))
      ∙ found-keys d t u.1

  found-append :
      (t : Table (CycleTrace S)) (ks js : List String)
      → found t (ks ++ js) ≡ found t ks ++ found t js
  unfolding found
  found-append t [] js = refl
  found-append t (k ∷ ks) js = ground (arith, found-append t ks js)

  found-reverse :
      (t : Table (CycleTrace S)) (ks : List String) → found t (reverse ks) ≡ reverse (found t ks)
  unfolding found
  found-reverse t [] = refl
  found-reverse t (k ∷ ks) =
      let e : found t (reverse (k ∷ ks)) ≡ reverse (found t ks) ++ found t (k ∷ []) =
        rw (reverse-cons k ks, found-append t (reverse ks) (k ∷ []), found-reverse t ks) in
      elim (Option-cases (get k t)) [
        | inl missing ↦ e ∙ rw (missing, found) (append-nil (reverse (found t ks)))
        | inr (c, there) ↦ e ∙ rw (there, found) (sym (reverse-cons c (found t ks)))
      ]

  found-last_n :
      (r : Ring S) (n : ℕ)
      → IsRing r
      → found r.by_cycle (reverse (last_n n r.order)) ≡ reverse (values (newest n r.by_cycle))
  unfolding last_n
  found-last_n r n v =
      let t = r.by_cycle in
      let e : last_n n r.order ≡ keys (newest n t) =
        rw (v.keyed, length-map (λ (p : String × CycleTrace S). p.0) t)
          (sym (map-drop (λ p. p.0) (size t - n) t)) in
      rw e (found-reverse t (keys (newest n t)) ∙ ap reverse (found-keys (size t - n) t v.unique))

  -- For a positive limit `list` gives the traces of the newest entries, newest first.
  pub list-newest :
      (r : Ring S) (n : ℕ) → IsRing r → 0 < n → list r n ≡ reverse (values (newest n r.by_cycle))
  unfolding list recent
  list-newest r n v h = let e : (n == 0) ≡ false = ground arith in rw e (found-last_n r n v)

  -- A limit of zero lists the whole buffer, not nothing.
  pub list-zero : (r : Ring S) → IsRing r → length (list r 0) ≡ size r.by_cycle
  unfolding list recent drop
  list-zero r v =
      let t = r.by_cycle in
      let e : list r 0 ≡ reverse (values t) =
        rw v.keyed (found-reverse t (keys t) ∙ ap reverse (found-keys 0 t v.unique)) in
      rw (e, length-reverse (values t)) (length-map (λ p. p.1) t)
