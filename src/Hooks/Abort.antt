-- ===== src/Hooks/Abort.antt =====
-- src/services/HookRunner.ts: which handlers run, and when a cycle is aborted.
use kovael.Common.{
  zero, suc, ◌+◌, ℕ, String, Option, none, some, ltb, leb, false, ◌≡◌, refl, ap, Bool, true, not,
  ◌&&◌, List, [], ◌∷◌, map, arith, if◌then◌else◌,
}
use kovael.Hooks.{
  HookEvent, HookResult, times_out, timeout_text, Handler, Runner, aborts, failing, any_failed,
  should_abort, run_one, run_list, run,
}

-- The results up to the first failure, that one included.
abbrev pub until_failure : List HookResult → List HookResult
until_failure [] = []
until_failure (r ∷ rs) = let rest = until_failure rs in if r.success then r ∷ rest else r ∷ []

-- A handler finishes well: it does not throw, and if it waits, it is done before its timeout. The
-- arguments are what it throws, the times that it takes before and while it waits, and its timeout.
abbrev pub finishes : Option String → ℕ → ℕ → ℕ → Bool
finishes (some e) before waiting timeout = false
finishes none before zero timeout = true
finishes none before (suc n) timeout = ltb (before + suc n) timeout

abbrev pub does_well : {C : Type 0} → C → Handler C → Bool
does_well ctx h = let b = h.fn ctx in finishes b.throws b.sync_ms b.async_ms h.timeout_ms

abbrev pub all_well : {C : Type 0} → C → List (Handler C) → Bool
all_well ctx [] = true
all_well ctx (h ∷ hs) = does_well ctx h && all_well ctx hs

abbrev is_none : Option String → Bool
is_none none = true
is_none (some e) = false

-- `success` by cases on what the handler throws and how long it waits.
success-finishes :
    (thrown : Option String) (before waiting timeout : ℕ)
    → is_none (
        if ltb 0 waiting && leb timeout (before + waiting)
        then some (timeout_text timeout)
        else thrown)
      ≡ finishes thrown before waiting timeout
success-finishes none before zero timeout = refl
success-finishes none before (suc n) timeout = ground arith
success-finishes (some e) before zero timeout = refl
success-finishes (some e) before (suc n) timeout = ground arith

module _ {C : Type 0} where
  run_list-until :
      (e : HookEvent) (hs : List (Handler C)) (ctx : C)
      → run_list e hs ctx ≡ (
          if aborts e
          then until_failure (map (λ h. run_one h ctx) hs)
          else map (λ h. run_one h ctx) hs)
  unfolding run_list failing
  run_list-until e [] ctx = ground arith
  run_list-until e (h ∷ hs) ctx = ground (arith, run_list-until e hs ctx)

  run_one-does_well : (h : Handler C) (ctx : C) → (run_one h ctx).success ≡ does_well ctx h
  unfolding run_one times_out
  run_one-does_well h ctx =
      success-finishes (h.fn ctx).throws (h.fn ctx).sync_ms (h.fn ctx).async_ms h.timeout_ms

  any_failed-until :
      (ctx : C) (hs : List (Handler C))
      → any_failed (until_failure (map (λ h. run_one h ctx) hs)) ≡ not (all_well ctx hs)
  unfolding any_failed failing
  any_failed-until ctx [] = refl
  any_failed-until ctx (h ∷ hs) = ground (arith, any_failed-until ctx hs, run_one-does_well h ctx)

  -- A run gives the results of the event's handlers in their order, for an aborting event up to
  -- the first failure; and the cycle is to be aborted exactly when the event is aborting and one
  -- of its handlers fails or times out.
  pub run-should_abort :
      (r : Runner C) (e : HookEvent) (ctx : C)
      → ((run r e ctx).1 ≡ (
          if aborts e
          then until_failure (map (λ h. run_one h ctx) (r.handlers e))
          else map (λ h. run_one h ctx) (r.handlers e)))
        × (should_abort e (run r e ctx).1 ≡ (aborts e && not (all_well ctx (r.handlers e))))
  unfolding run should_abort
  run-should_abort r e ctx =
      let u = run_list-until e (r.handlers e) ctx in
      (u, ground (arith, ap any_failed u, any_failed-until ctx (r.handlers e)))
