-- ===== src/Rates.antt =====
-- src/services/RateLimitTracker.ts: dispatches of an agent in a sliding window.
--
-- A method is synchronous, so the clock's readings within it agree. `list[0] < now - windowMs` is
-- written as a sum. A remaining count is a natural number.
pub mod Cutting
pub mod Window
use kovael.Common.{
  ℕ, ◌+◌, String, Bool, true, false, not, ◌&&◌, Option, none, some, List, [], ◌∷◌, ◌++◌, leb, ltb,
  length, or_default, ◌==◌, if◌then◌else◌,
}
use kovael.Table.{Table, get, set, keys}

pub record Config : Type 0 where
  pub window_ms : ℕ
  pub max_per_window : ℕ

abbrev pub default_config : Config
default_config = record { window_ms = 60_000; max_per_window = 60 }

pub record ProviderLimit : Type 0 where
  pub remaining : ℕ
  pub reset_at_ms : ℕ

pub record Snapshot : Type 0 where
  pub agent_id : String
  pub in_window : ℕ
  pub capacity : ℕ
  pub window_ms : ℕ
  pub blocked : Bool
  pub reset_at_ms : Option ℕ
  pub provider_reported : Option ProviderLimit

pub record Tracker : Type 0 where
  pub cfg : Config
  pub windows : Table (List ℕ)
  pub provider_limits : Table ProviderLimit
  pub emitted : List Snapshot

abbrev pub create : Config → Tracker
create cfg = record { cfg = cfg; windows = []; provider_limits = []; emitted = [] }

-- Drops the dispatches before the window, which stand at the front.
unfoldable pub prune : ℕ → ℕ → List ℕ → List ℕ
prune window now [] = []
prune window now (x ∷ xs) =
    let rest = prune window now xs in if ltb (x + window) now then rest else x ∷ xs

-- The list of an agent is cut in place, where it has one.
unfoldable pub cut : Tracker → String → ℕ → Tracker × List ℕ
unfolding prune
cut t a now = elim (get a t.windows) [
  | none ↦ (t, [])
  | some xs ↦
      let kept = prune t.cfg.window_ms now xs in (record t { windows = set a kept t.windows }, kept)
]

unfoldable pub provider_blocks : Tracker → String → ℕ → Bool
provider_blocks t a now = elim (get a t.provider_limits) [
  | none ↦ false
  | some p ↦ leb p.remaining 0 && ltb now p.reset_at_ms
]

unfoldable pub can_dispatch : Tracker → String → ℕ → Tracker × Bool
unfolding provider_blocks cut
can_dispatch t a now =
    let (t', kept) = cut t a now in
    if provider_blocks t a now then (t, false) else (t', ltb (length kept) t.cfg.max_per_window)

-- `oldest ? oldest + windowMs : undefined`: zero counts as absent.
unfoldable pub reset_at : ℕ → List ℕ → Option ℕ
reset_at window [] = none
reset_at window (x ∷ xs) = if x == 0 then none else some (x + window)

unfoldable pub snapshot : Tracker → String → ℕ → Tracker × Snapshot
unfolding cut can_dispatch reset_at
snapshot t a now =
    let (t', kept) = cut t a now in
    let (t'', free) = can_dispatch t' a now in
    (
      t'',
      record {
        agent_id = a;
        in_window = length kept;
        capacity = t.cfg.max_per_window;
        window_ms = t.cfg.window_ms;
        blocked = not free;
        reset_at_ms = reset_at t.cfg.window_ms kept;
        provider_reported = get a t.provider_limits;
      },
    )

unfoldable pub snapshots_of : Tracker → List String → ℕ → Tracker × List Snapshot
unfolding snapshot
snapshots_of t [] now = (t, [])
snapshots_of t (a ∷ rest) now =
    let (t', s) = snapshot t a now in let (t'', ss) = snapshots_of t' rest now in (t'', s ∷ ss)

unfoldable pub all_snapshots : Tracker → ℕ → Tracker × List Snapshot
unfolding snapshots_of
all_snapshots t now = snapshots_of t (keys t.windows) now

unfoldable pub announce : Tracker → String → ℕ → Tracker
unfolding snapshot
announce t a now = let (t', s) = snapshot t a now in record t' { emitted = s ∷ t'.emitted }

unfoldable pub record_dispatch : Tracker → String → ℕ → Tracker
unfolding announce prune
record_dispatch t a now =
    let xs = prune t.cfg.window_ms now (or_default (get a t.windows) [] ++ now ∷ []) in
    announce (record t { windows = set a xs t.windows }) a now

unfoldable pub update_provider_limit : Tracker → String → ℕ → ℕ → ℕ → Tracker
unfolding announce
update_provider_limit t a remaining reset now =
    announce
      (record t {
        provider_limits =
            set a (record { remaining = remaining; reset_at_ms = reset }) t.provider_limits;
      })
      a now

pub data Call : Type 0 where
  dispatches : String → Call
  asks : String → Call
  reports : String → ℕ → ℕ → Call
  looks : String → Call

unfoldable pub step : Tracker → ℕ × Call → Tracker
unfolding record_dispatch can_dispatch update_provider_limit snapshot
step t (now, dispatches a) = record_dispatch t a now
step t (now, asks a) = (can_dispatch t a now).0
step t (now, reports a remaining reset) = update_provider_limit t a remaining reset now
step t (now, looks a) = (snapshot t a now).0

unfoldable pub run : Tracker → List (ℕ × Call) → Tracker
run t [] = t
run t (c ∷ cs) = run (step t c) cs
