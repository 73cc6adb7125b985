-- ===== src/Examples/GovernorRuns.antt =====
-- src/services/ResourceGovernor.ts: a quiet time, a trim and a wake-up.
use kovael.Common.{ℕ, ◌≡◌, refl, true, false, none, some, List, [], ◌∷◌}
use kovael.Governor.{Call, Governor, idle, sweeps, starts, create, run, step}

abbrev calls : List (ℕ × Call)
calls = (5, starts) ∷ (60, sweeps false) ∷ (110, sweeps false) ∷ []

abbrev new : Governor
new = create true (some 100) none 0

quiet_run : (run new calls).mode ≡ idle
unfolding run step create
quiet_run = refl
