-- ===== src/Consensus.antt =====
-- src/services/ConsensusEngine.ts: the weighted vote of a committee.
--
-- Confidences, weights and thresholds are in ten-thousandths, so that a product of two of them is in
-- hundred-millionths. A number that is asked for may be absent or not finite; negative ones are left
-- out. A quotient is compared by products, exactly, where the source rounds its floats. Rationales
-- and traces are left out.
pub mod Quorum
pub mod Sidecars
pub mod Tally
use kovael.Common.{
  ℕ, zero, suc, ◌+◌, ◌*◌, min, max, String, Bool, true, false, not, ◌&&◌, ◌||◌, Option, none, some,
  List, [], ◌∷◌, ◌++◌, map, leb, ltb, ◌==◌, length, str_eq, if◌then◌else◌, or_default, take,
}
use kovael.Dispatches.{contains}

pub data Value : Type 0 where
  absent not_finite : Value
  given : ℕ → Value

pub data Role : Type 0 where
  proponent critic judge : Role

pub data Choice : Type 0 where
  approve reject abstain : Choice

pub record Vote : Type 0 where
  pub agent_id : String
  pub role : Role
  pub verdict : Choice
  pub confidence : Value
  pub weight : Value

-- A vote with its numbers within their bounds.
pub record Counted : Type 0 where
  pub agent_id : String
  pub role : Role
  pub verdict : Choice
  pub confidence : ℕ
  pub weight : ℕ

pub data Status : Type 0 where
  accepted failed needs_sidecar : Status

pub record Options : Type 0 where
  pub quorum_threshold : Value
  pub failure_threshold : Value
  pub sidecar_candidates : List String
  pub active_participants : Option (List String)

pub record Verdict : Type 0 where
  pub status : Status
  pub quorum_threshold : ℕ
  pub failure_threshold : ℕ
  pub approve_weight : ℕ
  pub reject_weight : ℕ
  pub abstain_weight : ℕ
  pub total_weight : ℕ
  pub confidence_sum : ℕ
  pub voters : ℕ
  pub dissent : List Counted
  pub sidecars : List String

-- `clampRange(value ?? d, low, high)`
unfoldable pub clamp_range : Value → ℕ → ℕ → ℕ → ℕ
clamp_range absent d low high = min high (max low d)
clamp_range not_finite d low high = low
clamp_range (given n) d low high = min high (max low n)

unfoldable pub weight_of : Value → ℕ
weight_of absent = 10_000
weight_of not_finite = 10_000
weight_of (given n) = n

unfoldable pub normalize_vote : Vote → Counted
unfolding clamp_range weight_of
normalize_vote v = record {
  agent_id = v.agent_id;
  role = v.role;
  verdict = v.verdict;
  confidence = clamp_range v.confidence 0 0 10_000;
  weight = weight_of v.weight;
}

-- `new Map(votes.map((vote) => [vote.agentId, vote])).get(agent)`: the last vote of an agent.
unfoldable pub last_vote : String → Option Vote → List Vote → Option Vote
last_vote agent found [] = found
last_vote agent found (v ∷ vs) =
    last_vote agent (if str_eq v.agent_id agent then some v else found) vs

unfoldable pub missing_vote : String → ℕ → Vote
missing_vote agent index = record {
  agent_id = agent;
  role = if index == 0 then proponent else critic;
  verdict = abstain;
  confidence = given 0;
  weight = given 10_000;
}

unfoldable pub participant_votes : List Vote → ℕ → List String → List Vote
unfolding last_vote missing_vote
participant_votes votes index [] = []
participant_votes votes index (a ∷ rest) =
    or_default (last_vote a none votes) (missing_vote a index)
    ∷ participant_votes votes (index + 1) rest

unfoldable pub outside_votes : List String → List Vote → List Vote
outside_votes active [] = []
outside_votes active (v ∷ vs) =
    let rest = outside_votes active vs in if contains v.agent_id active then rest else v ∷ rest

unfoldable pub complete_participant_votes : List Vote → Option (List String) → List Vote
unfolding participant_votes outside_votes
complete_participant_votes votes none = votes
complete_participant_votes votes (some []) = votes
complete_participant_votes votes (some (a ∷ rest)) =
    participant_votes votes 0 (a ∷ rest) ++ outside_votes (a ∷ rest) votes

unfoldable pub same : Choice → Choice → Bool
same approve approve = true
same reject reject = true
same abstain abstain = true
same _ _ = false

unfoldable pub total : List Counted → ℕ
total [] = 0
total (v ∷ vs) = v.weight + total vs

-- The weights of a choice, each times its vote's confidence.
unfoldable pub weight_for : Choice → List Counted → ℕ
unfolding same
weight_for c [] = 0
weight_for c (v ∷ vs) = (if same v.verdict c then v.weight * v.confidence else 0) + weight_for c vs

unfoldable pub abstained : List Counted → ℕ
unfolding same
abstained [] = 0
abstained (v ∷ vs) = (if same v.verdict abstain then v.weight else 0) + abstained vs

unfoldable pub confidences : List Counted → ℕ
confidences [] = 0
confidences (v ∷ vs) = v.confidence + confidences vs

-- `(whole === 0 ? 0 : part / whole) >= threshold`, for a positive threshold.
unfoldable pub reaches : ℕ → ℕ → ℕ → Bool
reaches part whole threshold = not (whole == 0) && leb (threshold * whole) part

unfoldable pub status_of : ℕ → ℕ → ℕ → ℕ → ℕ → ℕ → Status
unfolding reaches
status_of quorum failure support whole confidence n =
    if reaches support whole quorum && reaches confidence n quorum
    then accepted
    else if not (reaches support whole failure) || not (reaches confidence n failure)
    then needs_sidecar
    else failed

unfoldable pub dissent_of : List Counted → List Counted
unfolding same
dissent_of [] = []
dissent_of (v ∷ vs) = let rest = dissent_of vs in if same v.verdict approve then rest else v ∷ rest

unfoldable pub inactive : List String → List String → List String
inactive active [] = []
inactive active (c ∷ cs) =
    let rest = inactive active cs in if contains c active then rest else c ∷ rest

unfoldable pub voters_of : List Counted → List String
voters_of [] = []
voters_of (v ∷ vs) = v.agent_id ∷ voters_of vs

unfoldable pub sidecars_of : Status → List String → List String → List String
unfolding inactive take
sidecars_of accepted active candidates = []
sidecars_of failed active candidates = []
sidecars_of needs_sidecar active candidates = take 2 (inactive active candidates)

unfoldable pub count_votes : List Counted → Options → ℕ → ℕ → Verdict
unfolding status_of weight_for abstained total confidences dissent_of sidecars_of voters_of
count_votes vs o quorum failure =
    let status =
      status_of quorum failure (weight_for approve vs) (total vs) (confidences vs) (length vs) in
    record {
      status = status;
      quorum_threshold = quorum;
      failure_threshold = failure;
      approve_weight = weight_for approve vs;
      reject_weight = weight_for reject vs;
      abstain_weight = abstained vs;
      total_weight = total vs;
      confidence_sum = confidences vs;
      voters = length vs;
      dissent = dissent_of vs;
      sidecars =
          sidecars_of status (or_default o.active_participants (voters_of vs)) o.sidecar_candidates;
    }

unfoldable pub evaluate_committee : List Vote → Options → Verdict
unfolding clamp_range complete_participant_votes normalize_vote count_votes
evaluate_committee votes o =
    let quorum = clamp_range o.quorum_threshold 8_500 6_000 10_000 in
    let failure = clamp_range o.failure_threshold 5_000 5_000 quorum in
    count_votes (map normalize_vote (complete_participant_votes votes o.active_participants)) o
      quorum failure
