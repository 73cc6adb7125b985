-- ===== src/Examples/HealerRuns.antt =====
-- src/services/SelfHealer.ts: a patch that the tests refuse, on a tree of one file.
use kovael.Common.{◌≡◌, refl, String, Bool, true, false, Option, none, some, [], ◌∷◌, arith}
use kovael.Healer.{
  Options, Commands, Guards, Receipt, Healer, HealResult, reverted, repair_from_receipt,
}
use kovael.Healer.Rollback.{IsCareful, FairAfter, repair-Fair}

-- The file is patched or not.
apply_file : Bool → Bool × Option String
apply_file false = (true, none)
apply_file true = (true, some "patch does not apply")

reverse_file : Bool → Bool × Option String
reverse_file true = (false, none)
reverse_file false = (false, some "patch does not apply")

test_file : Bool → Bool × Option String
test_file true = (true, some "build failed")
test_file false = (false, none)

abbrev one_file : Commands Bool
one_file = record {
  clock = λ w. 7;
  branch = λ w. some "stage4/fix";
  git_status = λ w. some "";
  check = λ p w. none;
  apply = λ p w. apply_file w;
  test = test_file;
  commit = λ w. (w, none);
  reverse = λ p w. reverse_file w;
}

abbrev file : Bool → Bool
file w = w

careful : IsCareful one_file file
unfolding apply_file reverse_file test_file
careful = record {
  apply_fails = λ p w s a. ground arith;
  test_keeps = λ w. ground arith;
  commit_keeps = λ w. refl;
  undoes = λ p w v a k b. ground arith;
}

abbrev guards : Guards
guards = record { extract = λ s. some s; refuse = λ p. none; redact = λ s. s }

abbrev options : Options
options = record {
  max_attempts = 2;
  test_command = "npm" ∷ "test" ∷ [];
  branch_name = none;
  auto_apply = true;
  commit_on_green = true;
  allowed_branch_prefixes = "stage4/" ∷ [];
}

abbrev receipt : Receipt
receipt = record { cycle_id = "c1"; task_hash = "t1"; is_failed = true; evidence = "--- a" }

abbrev healer : Healer Bool
healer = record { world = false; emitted = [] }

abbrev status_of : Option (Healer Bool × HealResult) → Option (Bool × HealResult)
status_of none = none
status_of (some (h, x)) = some (h.world, x)

two_attempts :
    status_of (repair_from_receipt one_file guards options receipt healer)
    ≡ some (false, record { status = reverted; attempts = 2; reason = some "build failed" })
unfolding repair_from_receipt apply_file reverse_file test_file
two_attempts = refl

repair-Fair_example :
    FairAfter one_file file false (repair_from_receipt one_file guards options receipt healer)
repair-Fair_example = repair-Fair one_file guards options receipt file careful healer
