-- ===== src/Bridge.antt =====
-- src/MevBridge.ts: the loop of Architect, Operator and Verifier, and the choice of the architect.
--
-- What the loop takes from Node and from the tracer is `Outside`: the clock at each transition,
-- the identifiers, JSON texts, the prompt of a persona, and the stage at which something throws. A
-- message stands for an object, so two messages of a history are different ones.
pub mod Execute
pub mod Route
pub mod Loop
pub mod Shards
use kovael.Common.{
  ℕ, zero, suc, ◌+◌, ◌-◌, ◌/◌, String, Bool, true, false, not, ◌&&◌, Option, none, some, List, [],
  ◌∷◌, ◌++◌, map, leb, ltb, ◌==◌, length, last_n, units, str_eq, if◌then◌else◌, ◌+++◌, decimal,
  or_default,
}
use kovael.Triad.{
  Phase, dispatch_to_architect, architect_streaming, dispatch_to_operator, operator_executing,
  dispatch_to_verifier, verifier_auditing, issuing_receipt, succeeded, failed, PhaseEvent, Cycle,
  Request, start, transition, is_terminal, trail,
}
use kovael.Rates.{Tracker, can_dispatch, record_dispatch}

pub record TokenUsage : Type 0 where
  pub input : ℕ
  pub output : ℕ
  pub total : ℕ
  pub runtime_ms : ℕ

pub data ReceiptStatus : Type 0 where
  verified failed_ : ReceiptStatus

pub record Routing : Type 0 where
  pub agent : String
  pub rationale : String

pub record Receipt : Type 0 where
  pub id : String
  pub cycle_id : String
  pub timestamp : ℕ
  pub architect_id : String
  pub operator_id : String
  pub verifier_id : String
  pub task_hash : String
  pub status : ReceiptStatus
  pub evidence : String
  pub routing : Routing
  pub vram_free_mb : ℕ
  pub phase_trail : List PhaseEvent
  pub tokens : TokenUsage

-- `Math.ceil(text.length / 4)`
unfoldable pub estimate_tokens : String → ℕ
estimate_tokens s = (units s + 3) / 4

pub record Message : Type 0 where
  pub role : String
  pub content : String

pub record Bridge : Type 0 where
  pub vram_free_mb : ℕ
  pub vram_known : Bool
  pub vram_floor_mb : ℕ
  pub primary_architect : String
  pub fallback_agent : String
  pub keep_recent_turns : ℕ
  pub rate_limits : Option Tracker
  pub persona : Option (String → String)
  pub receipts : List Receipt

abbrev pub create : Bridge
create = record {
  vram_free_mb = 0;
  vram_known = false;
  vram_floor_mb = 8192;
  primary_architect = "shaev";
  fallback_agent = "nyx-cli";
  keep_recent_turns = 3;
  rate_limits = none;
  persona = none;
  receipts = [];
}

unfoldable pub set_vram_free : Bridge → ℕ → Bool → Bridge
set_vram_free b free known = record b { vram_free_mb = free; vram_known = known }

unfoldable pub set_vram_floor : Bridge → ℕ → Bridge
set_vram_floor b floor = record b { vram_floor_mb = floor }

unfoldable pub set_rate_limit_tracker : Bridge → Tracker → Bridge
set_rate_limit_tracker b t = record b { rate_limits = some t }

unfoldable pub set_primary_architect : Bridge → String → Bridge
set_primary_architect b a = record b { primary_architect = a }

unfoldable pub set_fallback_agent : Bridge → String → Bridge
set_fallback_agent b a = record b { fallback_agent = a }

unfoldable pub set_keep_recent_turns : Bridge → ℕ → Bridge
set_keep_recent_turns b n = record b { keep_recent_turns = n }

unfoldable pub set_persona_loader : Bridge → (String → String) → Bridge
set_persona_loader b f = record b { persona = some f }

unfoldable pub is_system : Message → Bool
is_system m = str_eq m.role "system"

-- `history.find(m => m.role === 'system')`, with the messages before it counted.
unfoldable pub find_system : ℕ → List Message → Option (ℕ × Message)
unfolding is_system
find_system n [] = none
find_system n (m ∷ ms) =
    let rest = find_system (n + 1) ms in if is_system m then some (n, m) else rest

-- `history.slice(-keep)`: minus zero is zero, from which `slice` takes everything.
unfoldable pub tail_of : List Message → ℕ → List Message
tail_of history keep = if keep == 0 then history else last_n keep history

-- The system message goes first, unless the tail has it.
unfoldable pub shard_context : List Message → ℕ → List Message
unfolding find_system tail_of
shard_context history keep =
    let tail = tail_of history keep in
    elim (find_system 0 history) [
      | none ↦ tail
      | some (n, m) ↦ if ltb (n + length tail) (length history) then m ∷ tail else tail
    ]

unfoldable pub limited_text : Bridge → String
unfolding ◌+++◌
limited_text b = b.primary_architect +++ "_rate_limited:falling_back_to_" +++ b.fallback_agent

unfoldable pub authorized_text : Bridge → String
unfolding ◌+++◌ decimal
authorized_text b =
    "vram_free_"
    +++ decimal b.vram_free_mb
    +++ "mb>="
    +++ decimal b.vram_floor_mb
    +++ "mb:"
    +++ b.primary_architect
    +++ "_authorized"

unfoldable pub gated_text : Bridge → String
unfolding ◌+++◌ decimal
gated_text b =
    "vram_free_"
    +++ decimal b.vram_free_mb
    +++ "mb<"
    +++ decimal b.vram_floor_mb
    +++ "mb:"
    +++ b.primary_architect
    +++ "_gated"

-- `this.rateLimits && !this.rateLimits.canDispatch(primary)`, which cuts the tracker's window.
unfoldable pub ask_rates : Bridge → ℕ → Bridge × Bool
ask_rates b now = elim b.rate_limits [
  | none ↦ (b, false)
  | some t ↦
      let (t', free) = can_dispatch t b.primary_architect now in
      (record b { rate_limits = some t' }, not free)
]

unfoldable pub choose : Bridge → Bool → Routing
unfolding limited_text authorized_text gated_text
choose b limited =
    if limited
    then record { agent = b.fallback_agent; rationale = limited_text b }
    else if not b.vram_known
    then record { agent = b.fallback_agent; rationale = "vram_unknown:defaulting_to_lightweight" }
    else if leb b.vram_floor_mb b.vram_free_mb
    then record { agent = b.primary_architect; rationale = authorized_text b }
    else record { agent = b.fallback_agent; rationale = gated_text b }

unfoldable pub route_architect : Bridge → ℕ → Bridge × Routing
unfolding ask_rates choose
route_architect b now = let (b', limited) = ask_rates b now in (b', choose b' limited)

-- `this.rateLimits?.recordDispatch(agent)`
unfoldable pub note_dispatch : Bridge → String → ℕ → Bridge
note_dispatch b agent now = elim b.rate_limits [
  | none ↦ b
  | some t ↦ record b { rate_limits = some (record_dispatch t agent now) }
]
