-- ===== src/Governor/Modes.antt =====
-- src/services/ResourceGovernor.ts: the profile, the trims and the quiet time before them.
use kovael.Common.{ℕ, ◌+◌, ◌≤◌, ◌<◌, ◌≡◌, ◌≢◌, String, true, List, [], ◌∷◌, arith, if◌then◌else◌}
use kovael.Governor.{
  Mode, active, ModeChange, Governor, Call, starts, stops, acts, sweeps, is_idle, enter_idle,
  enter_active, note_activity, sweep, start, stop, step, run,
}

-- The changes into the idle profile.
abbrev pub trims : List ModeChange → ℕ
trims [] = 0
trims (e ∷ es) = (if is_idle e.mode then 1 else 0) + trims es

-- The profile after the changes, newest first, from the active one.
abbrev pub latest : List ModeChange → Mode
latest [] = active
latest (e ∷ es) = e.mode

-- Each change is between different profiles and leaves the one that the change before it entered.
abbrev pub Alternate : List ModeChange → Type 0
Alternate [] = Unit
Alternate (e ∷ es) =
    (e.previous_mode ≡ latest es) × (is_idle e.mode ≢ is_idle e.previous_mode) × Alternate es

-- An idle period was entered only after the quiet time.
abbrev pub Quiet : ℕ → List ModeChange → Type 0
Quiet limit [] = Unit
Quiet limit (e ∷ es) = (is_idle e.mode ≡ true → limit ≤ e.idle_for_ms) × Quiet limit es

pub record IsGoverned (g : Governor) : Type 0 where
  pub mode_told : g.mode ≡ latest g.emitted
  pub counted : g.trim_count ≡ trims g.emitted
  pub alternate : Alternate g.emitted
  pub quiet : Quiet g.idle_after_ms g.emitted

-- Every call is made from one time on and before another.
abbrev pub Within : ℕ → ℕ → List (ℕ × Call) → Type 0
Within from until [] = Unit
Within from until ((now, c) ∷ cs) = (from ≤ now) × (now < until) × Within from until cs

abbrev Awake : ℕ → ℕ → Governor → Type 0
Awake at limit g = (g.mode ≡ active) × (at ≤ g.last_activity_at) × (g.idle_after_ms ≡ limit)

step-Awake :
    (g : Governor) (at limit now : ℕ) (c : Call)
    → at ≤ now
    → now < at + limit
    → Awake at limit g
    → Awake at limit (step g (now, c))
unfolding step start stop note_activity sweep enter_idle enter_active is_idle
step-Awake g at limit now starts l u v = ground arith
step-Awake g at limit now stops l u v = ground arith
step-Awake g at limit now (acts reason) l u v = ground arith
step-Awake g at limit now (sweeps busy) l u v = ground arith

run-Awake :
    (cs : List (ℕ × Call)) (g : Governor) (at limit : ℕ)
    → Within at (at + limit) cs
    → Awake at limit g
    → Awake at limit (run g cs)
unfolding run
run-Awake [] g at limit w v = v
run-Awake ((now, c) ∷ cs) g at limit w v =
    run-Awake cs (step g (now, c)) at limit w.2 (step-Awake g at limit now c w.0 w.1 v)

note_activity-Awake :
    (g : Governor) (at : ℕ) (reason : String) → Awake at g.idle_after_ms (note_activity g at reason)
unfolding note_activity enter_active is_idle
note_activity-Awake g at reason = ground arith

-- After an activity the profile is active, and whatever calls follow from then on it stays active
-- for the configured quiet time.
pub run_awake :
    (g : Governor) (at : ℕ) (reason : String) (cs : List (ℕ × Call))
    → Within at (at + g.idle_after_ms) cs
    → (run (note_activity g at reason) cs).mode ≡ active
run_awake g at reason cs w =
    (run-Awake cs (note_activity g at reason) at g.idle_after_ms w
      (note_activity-Awake g at reason)).0
