-- ===== src/Consensus/Quorum.antt =====
-- src/services/ConsensusEngine.ts: no options accept what is not supported.
use kovael.Common.{
  ℕ, String, refl, sym, ◌∙◌, ◌+◌, ◌*◌, ◌≤◌, ◌<◌, ◌≡◌, true, List, [], ◌∷◌, map, arith, length,
  if◌then◌else◌,
}
use native.Mathlib.Nat.{mul_comm, mul-le-mul_right, le_trans}
use kovael.Consensus.Tally.{
  tally, weight_in, support_in, confidence_in, one_in, sum_of-tally, total-sum, confidences-sum,
  length-sum, support-sum,
}
use kovael.Consensus.{
  missing_vote, Value, absent, not_finite, given, Choice, approve, reject, abstain, Vote, Counted,
  accepted, Options, Verdict, clamp_range, same, total, weight_for, abstained, confidences, reaches,
  status_of, count_votes, evaluate_committee, normalize_vote, complete_participant_votes,
}

clamp_range-le : (v : Value) (d low high : ℕ) → low ≤ high → low ≤ clamp_range v d low high
unfolding clamp_range
clamp_range-le absent d low high h = omega arith
clamp_range-le not_finite d low high h = omega arith
clamp_range-le (given n) d low high h = omega arith

clamp_range-high : (v : Value) (d low high : ℕ) → low ≤ high → clamp_range v d low high ≤ high
unfolding clamp_range
clamp_range-high absent d low high h = omega arith
clamp_range-high not_finite d low high h = omega arith
clamp_range-high (given n) d low high h = omega arith

-- Every confidence is at most one.
abbrev Within : List Counted → Type 0
Within [] = Unit
Within (v ∷ vs) = (v.confidence ≤ 10_000) × Within vs

normalized-Within : (vs : List Vote) → Within (map normalize_vote vs)
unfolding normalize_vote
normalized-Within [] = tt
normalized-Within (v ∷ vs) =
    (clamp_range-high v.confidence 0 0 10_000 (omega arith), normalized-Within vs)

times-le : (w c : ℕ) → c ≤ 10_000 → w * c ≤ 10_000 * w
times-le w c h = rw (mul_comm w c) (mul-le-mul_right w h)

one_vote :
    (c : Choice) (w k : ℕ)
    → k ≤ 10_000
    → (if same c approve then w * k else 0)
        + (if same c reject then w * k else 0)
        + 10_000 * (if same c abstain then w else 0)
      ≤ 10_000 * w
unfolding same
one_vote approve w k h = let t = times-le w k h in omega arith
one_vote reject w k h = let t = times-le w k h in omega arith
one_vote abstain w k h = omega arith

add_votes :
    (a b c x y z w t : ℕ)
    → a + b + 10_000 * c ≤ 10_000 * w
    → x + y + 10_000 * z ≤ 10_000 * t
    → (a + x) + (b + y) + 10_000 * (c + z) ≤ 10_000 * (w + t)
add_votes a b c x y z w t h k = omega arith

-- The weights of the three choices are at most that of all votes.
weights-le :
    (vs : List Counted)
    → Within vs
    → weight_for approve vs + weight_for reject vs + 10_000 * abstained vs ≤ 10_000 * total vs
unfolding weight_for abstained total
weights-le [] h = omega arith
weights-le (v ∷ vs) h =
    add_votes _ _ _ (weight_for approve vs) (weight_for reject vs) (abstained vs) v.weight
      (total vs) (one_vote v.verdict v.weight v.confidence h.0) (weights-le vs h.1)

approving : (a b c t : ℕ) → a + b + 10_000 * c ≤ t → a ≤ t
approving a b c t h = omega arith

reaches-some :
    (part whole threshold : ℕ)
    → reaches part whole threshold ≡ true
    → (0 < whole) × (threshold * whole ≤ part)
unfolding reaches
reaches-some part whole threshold h = ground arith

status-accepted :
    (q f support whole confidence n : ℕ)
    → status_of q f support whole confidence n ≡ accepted
    → (reaches support whole q ≡ true) × (reaches confidence n q ≡ true)
unfolding status_of
status-accepted q f support whole confidence n h = ground arith

-- What the verdict's numbers say, whatever the options ask for.
pub record IsFair (x : Verdict) : Type 0 where
  pub bounded :
      x.approve_weight + x.reject_weight + 10_000 * x.abstain_weight ≤ 10_000 * x.total_weight
  pub strict : 6_000 ≤ x.quorum_threshold
  pub within : x.quorum_threshold ≤ 10_000
  pub below : x.failure_threshold ≤ x.quorum_threshold
  pub floor : 5_000 ≤ x.failure_threshold

pub evaluate_committee-IsFair :
    (votes : List Vote) (o : Options) → IsFair (evaluate_committee votes o)
unfolding evaluate_committee count_votes
evaluate_committee-IsFair votes o =
    let q = clamp_range-le o.quorum_threshold 8_500 6_000 10_000 (omega arith) in
    let f : 5_000 ≤ clamp_range o.quorum_threshold 8_500 6_000 10_000 = omega arith in
    let vs = complete_participant_votes votes o.active_participants in
    record {
      bounded = weights-le (map normalize_vote vs) (normalized-Within vs);
      strict = q;
      within = clamp_range-high o.quorum_threshold 8_500 6_000 10_000 (omega arith);
      below = clamp_range-high o.failure_threshold 5_000 5_000 _ f;
      floor = clamp_range-le o.failure_threshold 5_000 5_000 _ f;
    }

missing-weight : (a : String) (i : ℕ) → weight_in (missing_vote a i) ≡ 10_000
unfolding missing_vote
missing-weight a i = refl

missing-support : (a : String) (i : ℕ) → support_in (missing_vote a i) ≡ 0
unfolding missing_vote
missing-support a i = refl

missing-confidence : (a : String) (i : ℕ) → confidence_in (missing_vote a i) ≡ 0
unfolding missing_vote
missing-confidence a i = refl

-- Whatever thresholds the options ask for, an accepted committee has some weight, of which at least
-- six tenths approve, each vote counted by its confidence, and the mean confidence is at least six
-- tenths. A participant counts by its last vote, and one who has not voted as a weight of one that
-- does not approve, with no confidence; every vote of another agent counts; and a weight is one
-- where none is given.
pub evaluate_committee-supported :
    (votes : List Vote) (o : Options)
    → (evaluate_committee votes o).status ≡ accepted
    → let ps = o.active_participants in
      (0 < tally weight_in 10_000 votes ps)
      × (6_000 * tally weight_in 10_000 votes ps ≤ tally support_in 0 votes ps)
      × (6_000 * tally one_in 1 votes ps ≤ tally confidence_in 0 votes ps)
unfolding evaluate_committee count_votes
evaluate_committee-supported votes o h =
    let ps = o.active_participants in
    let us = complete_participant_votes votes ps in
    let vs = map normalize_vote us in
    let fair = evaluate_committee-IsFair votes o in
    let q = clamp_range o.quorum_threshold 8_500 6_000 10_000 in
    let (a, b) =
      status-accepted q (clamp_range o.failure_threshold 5_000 5_000 q) (weight_for approve vs)
        (total vs) (confidences vs) (length vs) h in
    let (some_weight, support) = reaches-some (weight_for approve vs) (total vs) q a in
    let (voted, mean) = reaches-some (confidences vs) (length vs) q b in
    let weights : total vs ≡ tally weight_in 10_000 votes ps =
      total-sum us ∙ sum_of-tally weight_in 10_000 missing-weight votes ps in
    let supports : weight_for approve vs ≡ tally support_in 0 votes ps =
      support-sum us ∙ sum_of-tally support_in 0 missing-support votes ps in
    let trust : confidences vs ≡ tally confidence_in 0 votes ps =
      confidences-sum us ∙ sum_of-tally confidence_in 0 missing-confidence votes ps in
    let count : length vs ≡ tally one_in 1 votes ps =
      length-sum us ∙ sum_of-tally one_in 1 (λ a i. refl) votes ps in
    rw (sym weights, sym supports, sym trust, sym count)
      (
        some_weight,
        le_trans (mul-le-mul_right (total vs) fair.strict) support,
        le_trans (mul-le-mul_right (length vs) fair.strict) mean,
      )
