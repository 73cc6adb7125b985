-- ===== src/Examples/ConsensusRuns.antt =====
-- src/services/ConsensusEngine.ts: a vote with one participant missing, and one that is carried.
use kovael.Common.{◌≤◌, ◌<◌, ◌*◌, String, ◌≡◌, refl, some, List, [], ◌∷◌}
use kovael.Dispatches.{contains}
use kovael.Consensus.{Vote, Options, proponent, approve, absent, given, evaluate_committee}
use kovael.Consensus.Quorum.{evaluate_committee-supported}

abbrev vote : String → Vote
vote agent = record {
  agent_id = agent;
  role = proponent;
  verdict = approve;
  confidence = given 9_500;
  weight = absent;
}

abbrev options : List String → Options
options active = record {
  quorum_threshold = given 100;
  failure_threshold = absent;
  sidecar_candidates = "shaev" ∷ "nyx" ∷ "kara" ∷ [];
  active_participants = some active;
}

-- The second participant has not voted, so that less than six tenths support.
calls_in :
    (evaluate_committee (vote "shaev" ∷ []) (options ("shaev" ∷ "nyx" ∷ []))).sidecars ≡ "kara" ∷ []
unfolding evaluate_committee contains
calls_in = refl

-- Two of three participants carry it.
evaluate_committee-supported_example :
    (0 < 30_000) × (6_000 * 30_000 ≤ 190_000_000) × (6_000 * 3 ≤ 19_000)
unfolding evaluate_committee contains
evaluate_committee-supported_example =
    evaluate_committee-supported (vote "shaev" ∷ vote "nyx" ∷ [])
      (options ("shaev" ∷ "nyx" ∷ "kara" ∷ [])) refl
