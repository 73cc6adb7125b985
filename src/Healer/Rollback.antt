-- ===== src/Healer/Rollback.antt =====
-- src/services/SelfHealer.ts: a repair that is not kept leaves the work tree as it was.
use kovael.Common.{
  ℕ, zero, suc, ◌+◌, ◌≡◌, refl, sym, ◌∙◌, ◌⊎◌, inl, inr, String, length, Option, none, str_eq,
  subst, ◌+++◌, some, arith, Option-cases, Bool-cases, if◌then◌else◌, ◌==◌,
}
use kovael.Healer.{
  Options, Commands, Guards, Receipt, Healer, HealResult, applied, patch_applied, emit_event, skip,
  give_up, green, after_reverse, after_green, after_apply, after_check, carry_on, heal_from,
  is_branch_allowed, with_patch, on_branch, repair_from_receipt,
}

-- What git promises of the tracked files, and the tests of theirs: a failed `git apply` changes
-- none, `--reverse` takes a patch back that was applied to the same files, and neither the tests
-- nor a commit change any.
pub record IsCareful {W T : Type 0} (c : Commands W) (tree : W → T) : Type 0 where
  pub apply_fails :
      (p : String) (w : W) (s : String) → (c.apply p w).1 ≡ some s → tree (c.apply p w).0 ≡ tree w
  pub test_keeps : (w : W) → tree (c.test w).0 ≡ tree w
  pub commit_keeps : (w : W) → tree (c.commit w).0 ≡ tree w
  pub undoes :
      (p : String) (w v : W)
      → (c.apply p w).1 ≡ none
      → tree v ≡ tree (c.apply p w).0
      → (c.reverse p v).1 ≡ none
      → tree (c.reverse p v).0 ≡ tree w

-- The tests have passed on these files.
abbrev pub Passed : {W T : Type 0} → Commands W → (W → T) → T → Type 0
Passed {W = W} c tree t = (w : W) × ((c.test w).1 ≡ none) × (tree w ≡ t)

-- A repair that found the files `t` has applied a patch that passes, could not roll back, or left
-- the files as they were.
abbrev pub Fair : {W T : Type 0} → Commands W → (W → T) → T → Healer W → HealResult → Type 0
Fair c tree t h x =
    ((x.status ≡ applied) × Passed c tree (tree h.world))
    ⊎ (x.reason ≡ some "rollback_failed")
    ⊎ (tree h.world ≡ t)

abbrev FairSoFar : {W T : Type 0} → Commands W → (W → T) → T → Healer W × Option HealResult → Type 0
FairSoFar c tree t (h, none) = tree h.world ≡ t
FairSoFar c tree t (h, some x) = Fair c tree t h x

abbrev pub FairAfter :
    {W T : Type 0} → Commands W → (W → T) → T → Option (Healer W × HealResult) → Type 0
FairAfter c tree t none = Unit
FairAfter c tree t (some (h, x)) = Fair c tree t h x

module _ {W T : Type 0} (c : Commands W) (g : Guards) (o : Options) (r : Receipt) (tree : W → T)
    (v : IsCareful c tree) where
  after_reverse-Fair :
      (h : Healer W) (attempt : ℕ) (reason : String) (e : Option String) (t : T)
      → (e ≡ none → tree h.world ≡ t)
      → FairSoFar c tree t (after_reverse c g o r h attempt reason e)
  unfolding after_reverse give_up emit_event
  after_reverse-Fair h attempt reason (some s) t k = inr (inl refl)
  after_reverse-Fair h attempt reason none t k = elim (Bool-cases (attempt == o.max_attempts)) [
    | inl e ↦ rw e (inr (inr (k refl)))
    | inr e ↦ rw e (k refl)
  ]

  green-tree : (w : W) → tree (green c g o r w).0 ≡ tree w
  unfolding green
  green-tree w = ground (arith, v.test_keeps w, v.commit_keeps (c.test w).0)

  green-Passed : (w : W) → (green c g o r w).1 ≡ none → Passed c tree (tree (green c g o r w).0)
  unfolding green
  green-Passed w e = (w, ground arith, sym (green-tree w))

  after_green-Fair :
      (h : Healer W) (patch : String) (attempt : ℕ) (e : Option String) (w : W)
      → (c.apply patch w).1 ≡ none
      → tree h.world ≡ tree (c.apply patch w).0
      → (e ≡ none → Passed c tree (tree h.world))
      → FairSoFar c tree (tree w) (after_green c g o r h patch attempt e)
  unfolding after_green
  after_green-Fair h patch attempt none w a k q = inl (refl, q refl)
  after_green-Fair h patch attempt (some s) w a k q =
      after_reverse-Fair (record h { world = (c.reverse patch h.world).0 }) attempt (g.redact s)
        (c.reverse patch h.world).1 (tree w) (v.undoes patch w h.world a k)

  after_apply-Fair :
      (h : Healer W) (patch : String) (attempt : ℕ) (e : Option String) (w : W)
      → (c.apply patch w).1 ≡ e
      → tree h.world ≡ tree (c.apply patch w).0
      → FairSoFar c tree (tree w) (after_apply c g o r h patch attempt e)
  unfolding after_apply give_up emit_event
  after_apply-Fair h patch attempt (some s) w a k = inr (inr (k ∙ v.apply_fails patch w s a))
  after_apply-Fair h patch attempt none w a k =
      let h' = emit_event c g o r h patch_applied attempt none in
      after_green-Fair (record h' { world = (green c g o r h'.world).0 }) patch attempt
        (green c g o r h'.world).1 w a (green-tree h.world ∙ k) (green-Passed h.world)

  after_check-Fair :
      (h : Healer W) (patch : String) (attempt : ℕ) (e : Option String)
      → FairSoFar c tree (tree h.world) (after_check c g o r h patch attempt e)
  unfolding after_check give_up emit_event
  after_check-Fair h patch attempt (some s) = inr (inr refl)
  after_check-Fair h patch attempt none =
      after_apply-Fair (record h { world = (c.apply patch h.world).0 }) patch attempt
        (c.apply patch h.world).1 h.world refl refl

  carry_on-Fair :
      (f : Healer W → Healer W × HealResult) (t : T) (p : Healer W × Option HealResult)
      → ((h : Healer W) → tree h.world ≡ t → Fair c tree t (f h).0 (f h).1)
      → FairSoFar c tree t p
      → Fair c tree t (carry_on c g o r f p).0 (carry_on c g o r f p).1
  unfolding carry_on
  carry_on-Fair f t (h, none) ih k = ih h k
  carry_on-Fair f t (h, some x) ih k = k

  heal_from-Fair :
      (left : ℕ) (h : Healer W) (patch : String) (attempt : ℕ) (t : T)
      → tree h.world ≡ t
      → Fair c tree t
          (heal_from c g o r left h patch attempt).0
          (heal_from c g o r left h patch attempt).1
  unfolding heal_from
  heal_from-Fair zero h patch attempt t k = inr (inr k)
  heal_from-Fair (suc left) h patch attempt t k =
      carry_on-Fair (λ h'. heal_from c g o r left h' patch (attempt + 1)) t
        (after_check c g o r h patch attempt (c.check patch h.world))
        (λ h' k'. heal_from-Fair left h' patch (attempt + 1) t k')
        (subst
          (λ u. FairSoFar c tree u (after_check c g o r h patch attempt (c.check patch h.world))) k
          (after_check-Fair h patch attempt (c.check patch h.world)))

  skip-Fair :
      (h : Healer W) (why : String) → FairAfter c tree (tree h.world) (some (skip c g o r h why))
  unfolding skip emit_event
  skip-Fair h why = inr (inr refl)

  with_patch-Fair :
      (h : Healer W) (patch : String) → FairAfter c tree (tree h.world) (with_patch c g o r h patch)
  unfolding with_patch
  with_patch-Fair h patch = elim (Option-cases (g.refuse patch)) [
    | inr (why, e) ↦ rw (e, with_patch) (skip-Fair h why)
    | inl e ↦ elim (Option-cases (c.git_status h.world)) [
      | inl f ↦ rw (e, with_patch, f) tt
      | inr (s, f) ↦ elim (Bool-cases (str_eq s "")) [
        | inl b ↦
            rw (e, with_patch, f, b) (heal_from-Fair o.max_attempts h patch 1 (tree h.world) refl)
        | inr b ↦ rw (e, with_patch, f, b) (skip-Fair h "dirty_worktree")
      ]
    ]
  ]

  on_branch-Fair :
      (h : Healer W) (b : String) → FairAfter c tree (tree h.world) (on_branch c g o r h b)
  unfolding on_branch
  on_branch-Fair h b = elim (Bool-cases (is_branch_allowed o b)) [
    | inr e ↦
        rw (e, on_branch)
          (skip-Fair h ("unsafe_branch:" +++ (if str_eq b "" then "detached" else b)))
    | inl e ↦ elim (Option-cases (g.extract r.evidence)) [
      | inl f ↦ rw (e, on_branch, f) (skip-Fair h "no_repair_patch_available")
      | inr (patch, f) ↦ rw (e, on_branch, f) (with_patch-Fair h patch)
    ]
  ]

  repair_on-Fair :
      (h : Healer W) (named : Option String)
      → FairAfter c tree (tree h.world) (elim named [
        | some b ↦ on_branch c g o r h b
        | none ↦ elim (c.branch h.world) [ none ↦ none | some b ↦ on_branch c g o r h b ]
      ])
  repair_on-Fair h (some b) = on_branch-Fair h b
  repair_on-Fair h none = elim (Option-cases (c.branch h.world)) [
    | inl e ↦ rw e tt
    | inr (b, e) ↦ rw e (on_branch-Fair h b)
  ]

  -- With git and the tests as described, a repair that answers has applied a patch whose files
  -- pass the tests, or could not roll a patch back, or left the files as they were.
  pub repair-Fair : (h : Healer W) → FairAfter c tree (tree h.world) (repair_from_receipt c g o r h)
  unfolding repair_from_receipt
  repair-Fair h = elim (Bool-cases r.is_failed) [
    | inr e ↦ rw (e, repair_from_receipt) (skip-Fair h "receipt_not_failed")
    | inl e ↦ elim (Bool-cases o.auto_apply) [
      | inr f ↦ rw (e, repair_from_receipt, f) (skip-Fair h "auto_apply_disabled")
      | inl f ↦ elim (Bool-cases (length o.test_command == 0)) [
        | inl k ↦ rw (e, repair_from_receipt, f, k) (skip-Fair h "missing_test_command")
        | inr k ↦ rw (e, repair_from_receipt, f, k) (repair_on-Fair h o.branch_name)
      ]
    ]
  ]
