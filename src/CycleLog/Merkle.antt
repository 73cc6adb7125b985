-- ===== src/CycleLog/Merkle.antt =====
-- src/services/CycleLog.ts, `computeMerkleRoot`: the loop ends, and what the root pins down.
use kovael.Common.{
  ℕ, zero, suc, ◌+◌, ◌≤◌, ◌<◌, ◌≡◌, refl, ap, sym, ◌∙◌, true, false, Bool-cases, inl, inr, List, [],
  ◌∷◌, ◌++◌, arith, length, length-append, ltb,
}
use kovael.CycleLog.{next_level, reduce, merkle_root, first_or}

module _ {D : Type 0} (pair : D → D → D) where
  length-next_level :
      (xs : List D)
      → (length (next_level pair xs) + length (next_level pair xs) ≤ length xs + 1)
        × (length xs ≤ length (next_level pair xs) + length (next_level pair xs))
  unfolding next_level
  length-next_level [] = omega arith
  length-next_level (l ∷ []) = omega arith
  length-next_level (l ∷ r ∷ rest) = omega (arith, length-next_level rest)

  reduce_stop : (f : ℕ) (xs : List D) → length xs ≤ 1 → reduce pair f xs ≡ xs
  unfolding reduce
  reduce_stop zero xs h = refl
  reduce_stop (suc f) xs h = ground arith

  reduce_go :
      (f : ℕ) (xs : List D)
      → 1 < length xs
      → reduce pair (suc f) xs ≡ reduce pair f (next_level pair xs)
  unfolding reduce
  reduce_go f xs h = ground arith

  -- With as many rounds as leaves the loop ends on its own, with one digest.
  reduce-length :
      (f : ℕ) (xs : List D) → length xs ≤ f → 1 ≤ length xs → length (reduce pair f xs) ≡ 1
  reduce-length zero xs h g = absurd (omega arith)
  reduce-length (suc f) xs h g = elim (Bool-cases (ltb 1 (length xs))) [
    | inl more ↦
        let n = length-next_level xs in
        let m : 1 < length xs = ground arith in
        rw (reduce_go f xs m)
          (reduce-length f (next_level pair xs) (omega (arith, n)) (omega (arith, n)))
    | inr done ↦ rw (reduce_stop (suc f) xs (ground arith)) (ground arith)
  ]

  -- Any two supplies of fuel that cover the leaves give the same digests.
  reduce_fuel :
      (f g : ℕ) (xs : List D) → length xs ≤ f → length xs ≤ g → reduce pair f xs ≡ reduce pair g xs
  reduce_fuel zero g xs h k =
      reduce_stop zero xs (omega arith) ∙ sym (reduce_stop g xs (omega arith))
  reduce_fuel (suc f) zero xs h k =
      reduce_stop (suc f) xs (omega arith) ∙ sym (reduce_stop zero xs (omega arith))
  reduce_fuel (suc f) (suc g) xs h k = elim (Bool-cases (ltb 1 (length xs))) [
    | inl more ↦
        let n = length-next_level xs in
        let m : 1 < length xs = ground arith in
        rw (reduce_go f xs m, reduce_go g xs m)
          (reduce_fuel f g (next_level pair xs) (omega (arith, n)) (omega (arith, n)))
    | inr done ↦ reduce_stop (suc f) xs (ground arith) ∙ sym (reduce_stop (suc g) xs (ground arith))
  ]

  next_level_twin :
      (k : ℕ) (xs : List D) (x : D)
      → length xs ≡ k + k
      → next_level pair (xs ++ x ∷ []) ≡ next_level pair (xs ++ x ∷ x ∷ [])
  unfolding next_level
  next_level_twin zero [] x h = refl
  next_level_twin zero (a ∷ xs) x h = absurd (omega arith)
  next_level_twin (suc k) [] x h = absurd (omega arith)
  next_level_twin (suc k) (a ∷ []) x h = absurd (omega arith)
  next_level_twin (suc k) (a ∷ b ∷ xs) x h =
      ap (◌∷◌ (pair a b)) (next_level_twin k xs x (omega arith))

  -- The root does not tell an odd number of leaves, three or more, from the same leaves with the
  -- last one repeated.
  pub merkle_root_twin :
      (e x : D) (xs : List D) (k : ℕ)
      → length xs ≡ suc k + suc k
      → merkle_root pair e (xs ++ x ∷ []) ≡ merkle_root pair e (xs ++ x ∷ x ∷ [])
  unfolding merkle_root
  merkle_root_twin e x xs k h =
      let l = xs ++ x ∷ [] in
      let l' = xs ++ x ∷ x ∷ [] in
      let n = length-append xs (x ∷ []) in
      let n' = length-append xs (x ∷ x ∷ []) in
      let N = length l' in
      ap (first_or e) (
        reduce_fuel (length l) (suc N) l (omega arith) (omega (arith, n, n'))
        ∙ reduce_go N l (omega (arith, n))
        ∙ ap (reduce pair N) (next_level_twin (suc k) xs x h)
        ∙ sym (reduce_go N l' (omega (arith, n')))
        ∙ reduce_fuel (suc N) N l' (omega arith) (omega arith))

  module _ (pair-injective : (a b c d : D) → pair a b ≡ pair c d → (a ≡ c) × (b ≡ d)) where
    next_level-injective :
        (xs ys : List D) → length xs ≡ length ys → next_level pair xs ≡ next_level pair ys → xs ≡ ys
    unfolding next_level
    next_level-injective [] [] h e = refl
    next_level-injective [] (y ∷ ys) h e = absurd (omega arith)
    next_level-injective (x ∷ xs) [] h e = absurd (omega arith)
    next_level-injective (x ∷ []) (y ∷ []) h e = ground (arith, pair-injective x x y y)
    next_level-injective (x ∷ []) (y ∷ z ∷ ys) h e = absurd (omega arith)
    next_level-injective (x ∷ w ∷ xs) (y ∷ []) h e = absurd (omega arith)
    next_level-injective (x ∷ w ∷ xs) (y ∷ z ∷ ys) h e =
        ground (arith, pair-injective x w y z, next_level-injective xs ys (omega arith))

    reduce-injective :
        (f : ℕ) (xs ys : List D)
        → length xs ≡ length ys
        → reduce pair f xs ≡ reduce pair f ys
        → xs ≡ ys
    unfolding reduce
    reduce-injective zero xs ys h e = e
    reduce-injective (suc f) xs ys h e = elim (Bool-cases (ltb 1 (length xs))) [
      | inl more ↦
          let m : ltb 1 (length ys) ≡ true = rw (← h) more in
          let k : length (next_level pair xs) ≡ length (next_level pair ys) =
            omega (arith, length-next_level xs, length-next_level ys) in
          next_level-injective xs ys h
            (reduce-injective f (next_level pair xs) (next_level pair ys) k (ground arith))
      | inr done ↦ let m : ltb 1 (length ys) ≡ false = rw (← h) done in ground arith
    ]

    single : (e : D) (l : List D) → length l ≡ 1 → l ≡ first_or e l ∷ []
    single e [] h = absurd (omega arith)
    single e (x ∷ []) h = refl
    single e (x ∷ y ∷ l) h = absurd (omega arith)

    -- Over a hash of pairs without collisions, the root and the number of leaves determine them.
    pub merkle_root-injective :
        (e : D) (xs ys : List D)
        → length xs ≡ length ys
        → merkle_root pair e xs ≡ merkle_root pair e ys
        → xs ≡ ys
    unfolding merkle_root
    merkle_root-injective e [] [] h r = refl
    merkle_root-injective e [] (y ∷ ys) h r = absurd (omega arith)
    merkle_root-injective e (x ∷ xs) ys h r =
        let n = length (x ∷ xs) in
        reduce-injective n (x ∷ xs) ys h (
          single e (reduce pair n (x ∷ xs)) (reduce-length n (x ∷ xs) (omega arith) (omega arith))
          ∙ ap (λ d. d ∷ []) (r ∙ ap (λ m. first_or e (reduce pair m ys)) (sym h))
          ∙ sym (single e (reduce pair n ys) (reduce-length n ys (omega arith) (omega arith))))
