-- ===== src/Reconciler.antt =====
-- src/services/Reconciler.ts: the sweep that releases stalled claims and removes old released ones.
--
-- The timer is a flag, and its ticks are calls of `sweep`. A sweep is synchronous, so the ledger's clock and
-- its own agree. `now - r.updatedAt >= limit` is written as a sum.
pub mod Sweep
use kovael.Common.{
  ℕ, suc, ◌+◌, ◌-◌, String, Bool, true, false, ◌&&◌, ◌||◌, List, [], ◌∷◌, leb, if◌then◌else◌, ◌+++◌,
  decimal,
}
use kovael.Table.{values}
use kovael.Claims.{
  ClaimState, unclaimed, claimed, running, retry_queued, released, ClaimRecord, Machine, same,
  release, prune,
}

pub record Config : Type 0 where
  pub sweep_interval_ms : ℕ
  pub stall_timeout_ms : ℕ
  pub cleanup_after_ms : ℕ

abbrev pub default_config : Config
default_config = record {
  sweep_interval_ms = 5000;
  stall_timeout_ms = 60_000;
  cleanup_after_ms = 300_000;
}

pub data Kind : Type 0 where
  stall_detected terminal_cleanup : Kind

pub record Action : Type 0 where
  pub kind : Kind
  pub task_hash : String
  pub previous_state : ClaimState
  pub age_ms : ℕ
  pub timestamp : ℕ

-- The reconciler with the ledger that it shares with its peers, and its events, newest first.
pub record Reconciler : Type 0 where
  pub cfg : Config
  pub claims : Machine
  pub timer : Bool
  pub sweep_count : ℕ
  pub emitted : List Action

abbrev pub create : Machine → Config → Reconciler
create m cfg = record { cfg = cfg; claims = m; timer = false; sweep_count = 0; emitted = [] }

unfoldable pub start : Reconciler → Reconciler
start r = if r.timer then r else record r { timer = true }

unfoldable pub stop : Reconciler → Reconciler
stop r = record r { timer = false }

unfoldable pub stats : Reconciler → ℕ × Config
stats r = (r.sweep_count, r.cfg)

-- The value of a member of the enumeration.
unfoldable pub state_text : ClaimState → String
state_text unclaimed = "Unclaimed"
state_text claimed = "Claimed"
state_text running = "Running"
state_text retry_queued = "RetryQueued"
state_text released = "Released"

unfoldable pub stall_reason : ClaimState → ℕ → String
unfolding state_text decimal ◌+++◌
stall_reason s age = "stall_detected:" +++ state_text s +++ "_" +++ decimal age +++ "ms"

unfoldable pub is_stalled : Config → ℕ → ClaimRecord → Bool
unfolding same
is_stalled cfg now c =
    (same c.state claimed || same c.state running) && leb (c.updated_at + cfg.stall_timeout_ms) now

unfoldable pub is_expired : Config → ℕ → ClaimRecord → Bool
unfolding same
is_expired cfg now c = same c.state released && leb (c.updated_at + cfg.cleanup_after_ms) now

unfoldable pub action : Kind → ClaimRecord → ℕ → Action
action kind c now = record {
  kind = kind;
  task_hash = c.task_hash;
  previous_state = c.state;
  age_ms = now - c.updated_at;
  timestamp = now;
}

-- One round of the loop, about a record of the snapshot.
unfoldable pub sweep_one : Reconciler → ℕ → ClaimRecord → Reconciler
unfolding is_stalled is_expired action
sweep_one r now c =
    let (m, accepted) =
      release r.claims c.task_hash (stall_reason c.state (now - c.updated_at)) now in
    if is_stalled r.cfg now c
    then record r {
      claims = m;
      emitted = if accepted then action stall_detected c now ∷ r.emitted else r.emitted;
    }
    else if is_expired r.cfg now c
    then record r {
      claims = prune r.claims c.task_hash;
      emitted = action terminal_cleanup c now ∷ r.emitted;
    }
    else r

unfoldable pub sweep_all : Reconciler → ℕ → List ClaimRecord → Reconciler
unfolding sweep_one
sweep_all r now [] = r
sweep_all r now (c ∷ cs) = sweep_all (sweep_one r now c) now cs

unfoldable pub sweep : Reconciler → ℕ → Reconciler
unfolding sweep_all
sweep r now = sweep_all (record r { sweep_count = suc r.sweep_count }) now (values r.claims.ledger)
