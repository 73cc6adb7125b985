-- ===== src/Consensus/Sidecars.antt =====
-- src/services/ConsensusEngine.ts: who is called in where a committee has no support.
use kovael.Common.{
  ℕ, zero, suc, ◌≤◌, ◌≡◌, String, false, List, [], ◌∷◌, map, arith, length, take, length-take-le,
  All, Bool-cases, inl, inr, or_default,
}
use kovael.Dispatches.{contains}
use kovael.Consensus.{
  Vote, Status, accepted, failed, needs_sidecar, Options, inactive, sidecars_of, voters_of,
  normalize_vote, complete_participant_votes, count_votes, evaluate_committee,
}

abbrev pub AreOutside : List String → List String → Type 0
AreOutside active = All (λ (c : String). contains c active ≡ false)

inactive-AreOutside : (active cs : List String) → AreOutside active (inactive active cs)
unfolding inactive
inactive-AreOutside active [] = tt
inactive-AreOutside active (c ∷ cs) = elim (Bool-cases (contains c active)) [
  | inl e ↦ rw (e) (inactive-AreOutside active cs)
  | inr e ↦ rw (e) (e, inactive-AreOutside active cs)
]

take-AreOutside :
    (active : List String) (n : ℕ) (cs : List String)
    → AreOutside active cs
    → AreOutside active (take n cs)
unfolding take
take-AreOutside active zero cs h = tt
take-AreOutside active (suc n) [] h = tt
take-AreOutside active (suc n) (c ∷ cs) h = (h.0, take-AreOutside active n cs h.1)

sidecars_of-AreOutside :
    (s : Status) (active cs : List String)
    → AreOutside active (sidecars_of s active cs) × (length (sidecars_of s active cs) ≤ 2)
unfolding sidecars_of
sidecars_of-AreOutside accepted active cs = (tt, omega arith)
sidecars_of-AreOutside failed active cs = (tt, omega arith)
sidecars_of-AreOutside needs_sidecar active cs = (
  take-AreOutside active 2 (inactive active cs) (inactive-AreOutside active cs),
  length-take-le 2 _,
)

-- Those who take part in a committee: the active participants, or else the voters.
abbrev pub members : List Vote → Options → List String
members votes o =
    or_default o.active_participants
      (voters_of (map normalize_vote (complete_participant_votes votes o.active_participants)))

-- A committee calls in at most two sidecars, and none that takes part in it.
pub evaluate_committee-AreOutside :
    (votes : List Vote) (o : Options)
    → AreOutside (members votes o) (evaluate_committee votes o).sidecars
      × (length (evaluate_committee votes o).sidecars ≤ 2)
unfolding evaluate_committee count_votes
evaluate_committee-AreOutside votes o =
    sidecars_of-AreOutside _ (members votes o) o.sidecar_candidates
