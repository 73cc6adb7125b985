-- ===== src/Governor.antt =====
-- src/services/ResourceGovernor.ts: the switch between the active and the idle profile.
--
-- `isBusy` is an argument of a sweep, and the callbacks are told what is emitted. The timer is a
-- flag, and its ticks are calls of `sweep`.
pub mod Modes
use kovael.Common.{
  ℕ, ◌+◌, ◌-◌, String, Bool, true, false, not, ◌||◌, Option, none, some, List, [], ◌∷◌, leb, ltb,
  clip, if◌then◌else◌,
}

pub data Mode : Type 0 where
  active idle : Mode

pub record ModeChange : Type 0 where
  pub mode : Mode
  pub previous_mode : Mode
  pub timestamp : ℕ
  pub idle_for_ms : ℕ
  pub reason : String

pub record Governor : Type 0 where
  pub mode : Mode
  pub timer : Bool
  pub last_activity_at : ℕ
  pub last_activity_reason : String
  pub trim_count : ℕ
  pub last_trimmed_at : Option ℕ
  pub enabled : Bool
  pub idle_after_ms : ℕ
  pub sweep_interval_ms : ℕ
  pub emitted : List ModeChange

unfoldable pub positive_integer : Option ℕ → ℕ → ℕ
positive_integer none fallback = fallback
positive_integer (some v) fallback = if ltb 0 v then v else fallback

unfoldable pub create : Bool → Option ℕ → Option ℕ → ℕ → Governor
unfolding positive_integer
create enabled idle_after sweep_interval now = record {
  mode = active;
  timer = false;
  last_activity_at = now;
  last_activity_reason = "startup";
  trim_count = 0;
  last_trimmed_at = none;
  enabled = enabled;
  idle_after_ms = positive_integer idle_after 600_000;
  sweep_interval_ms = positive_integer sweep_interval 5000;
  emitted = [];
}

unfoldable pub is_idle : Mode → Bool
is_idle active = false
is_idle idle = true

unfoldable pub start : Governor → Governor
start g = if not g.enabled || g.timer then g else record g { timer = true }

unfoldable pub stop : Governor → Governor
stop g = record g { timer = false }

unfoldable pub enter_idle : Governor → ℕ → Governor
unfolding is_idle
enter_idle g now = if is_idle g.mode then g else record g {
  mode = idle;
  trim_count = g.trim_count + 1;
  last_trimmed_at = some now;
  emitted =
      record {
        mode = idle;
        previous_mode = g.mode;
        timestamp = now;
        idle_for_ms = now - g.last_activity_at;
        reason = "idle_timeout";
      }
      ∷ g.emitted;
}

unfoldable pub enter_active : Governor → ℕ → String → Governor
unfolding is_idle
enter_active g now reason = if not (is_idle g.mode) then g else record g {
  mode = active;
  emitted =
      record {
        mode = active;
        previous_mode = g.mode;
        timestamp = now;
        idle_for_ms = 0;
        reason = clip 160 reason;
      }
      ∷ g.emitted;
}

unfoldable pub note_activity : Governor → ℕ → String → Governor
unfolding is_idle enter_active
note_activity g now reason =
    let seen = record g { last_activity_at = now; last_activity_reason = clip 160 reason } in
    if is_idle seen.mode then enter_active seen now reason else seen

pub record Snapshot : Type 0 where
  pub enabled : Bool
  pub mode : Mode
  pub idle_after_ms : ℕ
  pub sweep_interval_ms : ℕ
  pub last_activity_at : ℕ
  pub last_activity_reason : String
  pub idle_for_ms : ℕ
  pub trim_count : ℕ
  pub last_trimmed_at : Option ℕ

-- `Math.max(0, now - lastActivityAt)` is the subtraction of natural numbers.
unfoldable pub snapshot : Governor → ℕ → Snapshot
snapshot g now = record {
  enabled = g.enabled;
  mode = g.mode;
  idle_after_ms = g.idle_after_ms;
  sweep_interval_ms = g.sweep_interval_ms;
  last_activity_at = g.last_activity_at;
  last_activity_reason = g.last_activity_reason;
  idle_for_ms = now - g.last_activity_at;
  trim_count = g.trim_count;
  last_trimmed_at = g.last_trimmed_at;
}

unfoldable pub sweep : Governor → Bool → ℕ → Governor
unfolding is_idle enter_idle
sweep g busy now =
    if not g.enabled || is_idle g.mode
    then g
    else if busy
    then record g { last_activity_at = now; last_activity_reason = "busy" }
    else if leb (g.last_activity_at + g.idle_after_ms) now
    then enter_idle g now
    else g

pub data Call : Type 0 where
  starts stops : Call
  acts : String → Call
  sweeps : Bool → Call

unfoldable pub step : Governor → ℕ × Call → Governor
unfolding start stop note_activity sweep
step g (now, starts) = start g
step g (now, stops) = stop g
step g (now, acts reason) = note_activity g now reason
step g (now, sweeps busy) = sweep g busy now

unfoldable pub run : Governor → List (ℕ × Call) → Governor
run g [] = g
run g (c ∷ cs) = run (step g c) cs
