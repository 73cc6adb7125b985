-- ===== src/Ring/Fifo.antt =====
-- src/services/TraceRingBuffer.ts: the buffer is a bounded first-in first-out table.
use kovael.Common.{
  ℕ, suc, ◌+◌, ◌-◌, ◌≤◌, ◌≡◌, refl, ap, ap₂, ◌∙◌, sym, true, false, List, [], ◌∷◌, ◌++◌, arith, ltb,
  length, drop, length-drop, length-map, Bool-cases, inl, inr, str_eq_self,
}
use native.Mathlib.Nat.{add-zero}
use kovael.Table.{Table, get, set, has, keys, size}
use kovael.Table.Laws.{Unique, set-Unique, size-set, delete_first, keys-set, drop-Unique}
use kovael.Ring.{
  CycleTrace, Ring, evict, put, trim, trim_to, Call, puts, trims, step, run, create, Options, ok,
}

module _ {S : Type 0} where
  length-keys : (t : Table (CycleTrace S)) → length (keys t) ≡ size t
  length-keys = length-map (λ e. e.0)

  -- On a table without repeated keys, and its own keys for the order, the loop drops the oldest
  -- entries and counts them.
  evict-drop :
      (limit : ℕ) (t : Table (CycleTrace S)) (n : ℕ)
      → Unique t
      → let d = size t - limit in evict limit (keys t) t n ≡ (keys (drop d t), drop d t, n + d)
  unfolding evict drop
  evict-drop limit [] n u = let e : 0 - limit ≡ 0 = omega arith in rw e (cc (add-zero n))
  evict-drop limit ((k, v) ∷ t) n u = elim (Bool-cases (ltb limit (suc (size t)))) [
    | inl over ↦
        let e : suc (size t) - limit ≡ suc (size t - limit) = ground arith in
        rw (length-keys t, over, delete_first k v t u, e)
          (evict-drop limit t (n + 1) u.1
            ∙ ap (λ m. (keys (drop (size t - limit) t), drop (size t - limit) t, m)) (omega arith))
    | inr fits ↦
        let e : suc (size t) - limit ≡ 0 = ground arith in
        rw (length-keys t, fits, e) (cc (add-zero n))
  ]

  trim-drop :
      (limit : ℕ) (t : Table (CycleTrace S)) (n dropped : ℕ)
      → Unique t
      → let d = size t - limit in
        trim limit (keys t) t n dropped ≡ (keys (drop d t), drop d t, n + d, dropped + d)
  unfolding trim drop get
  trim-drop limit [] n dropped u =
      let e : 0 - limit ≡ 0 = omega arith in rw e (cc (add-zero n, add-zero dropped))
  trim-drop limit ((k, v) ∷ t) n dropped u = elim (Bool-cases (ltb limit (suc (size t)))) [
    | inl over ↦
        let e : suc (size t) - limit ≡ suc (size t - limit) = ground arith in
        rw (length-keys t, over, delete_first k v t u, e, str_eq_self k)
          (trim-drop limit t (n + 1) (dropped + 1) u.1
            ∙ ap₂ (λ a b. (keys (drop (size t - limit) t), drop (size t - limit) t, a, b))
                (omega arith) (omega arith))
    | inr fits ↦
        let e : suc (size t) - limit ≡ 0 = ground arith in
        rw (length-keys t, fits, e) (cc (add-zero n, add-zero dropped))
  ]

  -- What holds of a buffer between two calls: the order is the table's own, no cycle stands twice,
  -- the capacity is kept, and every insertion is still there or was counted as evicted.
  pub record IsRing (r : Ring S) : Type 0 where
    pub keyed : r.order ≡ keys r.by_cycle
    pub unique : Unique r.by_cycle
    pub capped : size r.by_cycle ≤ r.capacity
    pub accounted : r.inserted ≡ r.evicted + size r.by_cycle

  -- The buffer as its specification sees it: oldest first, cut at the front to the capacity.
  abbrev pub newest : ℕ → Table (CycleTrace S) → Table (CycleTrace S)
  newest n t = drop (size t - n) t

  put_new :
      (bound : CycleTrace S → CycleTrace S) (r : Ring S) (c : CycleTrace S)
      → IsRing r
      → has c.cycle_id r.by_cycle ≡ false
      → let t = set c.cycle_id (bound c) r.by_cycle in
        let d = size t - r.capacity in
        put bound r c ≡ record r {
          by_cycle = drop d t;
          order = keys (drop d t);
          inserted = r.inserted + 1;
          evicted = r.evicted + d;
        }
  unfolding put
  put_new bound r c v new =
      let t = set c.cycle_id (bound c) r.by_cycle in
      let same_keys : r.order ++ c.cycle_id ∷ [] ≡ keys t =
        ground (arith, keys-set c.cycle_id (bound c) r.by_cycle, v.keyed) in
      let e =
        ap (λ ks. evict r.capacity ks t r.evicted) same_keys
        ∙ evict-drop r.capacity t r.evicted (set-Unique c.cycle_id (bound c) r.by_cycle v.unique) in
      rw (new, e)

  put_old :
      (bound : CycleTrace S → CycleTrace S) (r : Ring S) (c : CycleTrace S)
      → has c.cycle_id r.by_cycle ≡ true
      → put bound r c ≡ record r { by_cycle = set c.cycle_id (bound c) r.by_cycle }
  unfolding put
  put_old bound r c old = rw old

  drop_none : (t : Table (CycleTrace S)) (n : ℕ) → size t ≤ n → newest n t ≡ t
  unfolding drop
  drop_none t n h = let e : size t - n ≡ 0 = omega arith in rw e refl

  -- Storing a trace is a write to the table followed by a cut to the newest `capacity` entries.
  pub put-newest :
      (bound : CycleTrace S → CycleTrace S) (r : Ring S) (c : CycleTrace S)
      → IsRing r
      → (put bound r c).by_cycle ≡ newest r.capacity (set c.cycle_id (bound c) r.by_cycle)
  put-newest bound r c v = elim (Bool-cases (has c.cycle_id r.by_cycle)) [
    | inl old ↦
        let t = set c.cycle_id (bound c) r.by_cycle in
        ap (λ (x : Ring S). x.by_cycle) (put_old bound r c old)
        ∙ sym (
            drop_none t r.capacity
              (ground (arith, v.capped, size-set c.cycle_id (bound c) r.by_cycle)))
    | inr new ↦ ap (λ (x : Ring S). x.by_cycle) (put_new bound r c v new)
  ]

  put-IsRing :
      (bound : CycleTrace S → CycleTrace S) (r : Ring S) (c : CycleTrace S)
      → IsRing r
      → IsRing (put bound r c)
  put-IsRing bound r c v = elim (Bool-cases (has c.cycle_id r.by_cycle)) [
    | inl old ↦ rw (put_old bound r c old) (record {
      keyed = ground (arith, v.keyed, keys-set c.cycle_id (bound c) r.by_cycle);
      unique = set-Unique c.cycle_id (bound c) r.by_cycle v.unique;
      capped = ground (arith, v.capped, size-set c.cycle_id (bound c) r.by_cycle);
      accounted = ground (arith, v.accounted, size-set c.cycle_id (bound c) r.by_cycle);
    })
    | inr new ↦
        let t = set c.cycle_id (bound c) r.by_cycle in
        let n : size t ≡ suc (size r.by_cycle) =
          ground (arith, size-set c.cycle_id (bound c) r.by_cycle) in
        let l = length-drop (size t - r.capacity) t in
        rw (put_new bound r c v new) (record {
          keyed = refl;
          unique =
              drop-Unique (size t - r.capacity) t
                (set-Unique c.cycle_id (bound c) r.by_cycle v.unique);
          capped = omega (arith, l);
          accounted = omega (arith, l, n, v.accounted);
        })
  ]

  -- `trimTo` keeps the newest entries, returns how many it dropped and counts them as evicted.
  pub trim_to-newest :
      (r : Ring S) (n : ℕ)
      → IsRing r
      → let d = size r.by_cycle - n in
        trim_to r n ≡ (
          record r {
            order = keys (newest n r.by_cycle);
            by_cycle = newest n r.by_cycle;
            evicted = r.evicted + d;
          },
          d,
        )
  unfolding trim_to
  trim_to-newest r n v =
      let d = size r.by_cycle - n in
      let e =
        ap (λ ks. trim n ks r.by_cycle r.evicted 0) v.keyed
        ∙ trim-drop n r.by_cycle r.evicted 0 v.unique in
      let z : 0 + d ≡ d = omega arith in rw (e, z)

  trim_to-IsRing : (r : Ring S) (n : ℕ) → IsRing r → IsRing (trim_to r n).0
  trim_to-IsRing r n v =
      let l = length-drop (size r.by_cycle - n) r.by_cycle in
      rw (trim_to-newest r n v) (record {
        keyed = refl;
        unique = drop-Unique (size r.by_cycle - n) r.by_cycle v.unique;
        capped = omega (arith, l, v.capped);
        accounted = omega (arith, l, v.accounted);
      })

  run-IsRing :
      (bound : CycleTrace S → CycleTrace S) (cs : List (Call S)) (r : Ring S)
      → IsRing r
      → IsRing (run bound r cs)
  unfolding run step
  run-IsRing bound [] r v = v
  run-IsRing bound (puts c ∷ cs) r v = run-IsRing bound cs (put bound r c) (put-IsRing bound r c v)
  run-IsRing bound (trims n ∷ cs) r v = run-IsRing bound cs (trim_to r n).0 (trim_to-IsRing r n v)

  -- A buffer that was created keeps to its invariant under any calls.
  pub create-run-IsRing :
      (bound : CycleTrace S → CycleTrace S) (capacity : ℕ) (opts : Options) (cs : List (Call S))
      (r : Ring S)
      → create capacity opts ≡ ok r
      → IsRing (run bound r cs)
  unfolding create
  create-run-IsRing bound capacity opts cs r e = run-IsRing bound cs r (ground arith)
