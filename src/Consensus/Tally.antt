-- ===== src/Consensus/Tally.antt =====
-- src/services/ConsensusEngine.ts: what the votes of a committee come to, from the votes themselves.
use kovael.Common.{
  ℕ, String, Option, none, some, ◌++◌, min, str_eq, refl, ap, ◌∙◌, Option-cases, Bool-cases, inl,
  inr, ◌+◌, ◌*◌, ◌≡◌, List, [], ◌∷◌, map, arith, length, if◌then◌else◌,
}
use kovael.Dispatches.{contains}
use kovael.Consensus.{
  missing_vote, last_vote, participant_votes, outside_votes, weight_of, Value, absent, not_finite,
  given, Choice, approve, reject, abstain, Vote, clamp_range, same, total, weight_for, confidences,
  normalize_vote, complete_participant_votes,
}

-- The last vote of an agent.
abbrev pub vote_by : String → List Vote → Option Vote
vote_by agent [] = none
vote_by agent (v ∷ vs) = elim (vote_by agent vs) [
  | some w ↦ some w
  | none ↦ if str_eq v.agent_id agent then some v else none
]

-- What a vote counts in some respect, and what a participant counts who has not voted.
abbrev pub by_participants : (Vote → ℕ) → ℕ → List Vote → List String → ℕ
by_participants f d votes [] = 0
by_participants f d votes (a ∷ rest) =
    (elim (vote_by a votes) [ none ↦ d | some v ↦ f v ]) + by_participants f d votes rest

abbrev pub by_others : (Vote → ℕ) → List String → List Vote → ℕ
by_others f active [] = 0
by_others f active (v ∷ vs) =
    (if contains v.agent_id active then 0 else f v) + by_others f active vs

-- The tally of the votes: each participant once, and each vote of another agent.
abbrev pub tally : (Vote → ℕ) → ℕ → List Vote → Option (List String) → ℕ
tally f d votes none = by_others f [] votes
tally f d votes (some active) = by_participants f d votes active + by_others f active votes

-- A vote's weight is one where none is given; its confidence is at most one.
abbrev pub weight_worth : Value → ℕ
weight_worth absent = 10_000
weight_worth not_finite = 10_000
weight_worth (given n) = n

abbrev pub confidence_worth : Value → ℕ
confidence_worth absent = 0
confidence_worth not_finite = 0
confidence_worth (given n) = min n 10_000

abbrev pub support_worth : Choice → ℕ → ℕ
support_worth approve n = n
support_worth reject n = 0
support_worth abstain n = 0

abbrev pub weight_in : Vote → ℕ
weight_in v = weight_worth v.weight

abbrev pub confidence_in : Vote → ℕ
confidence_in v = confidence_worth v.confidence

abbrev pub support_in : Vote → ℕ
support_in v = support_worth v.verdict (weight_in v * confidence_in v)

abbrev pub one_in : Vote → ℕ
one_in v = 1

pub sum_of : (Vote → ℕ) → List Vote → ℕ
sum_of f [] = 0
sum_of f (v ∷ vs) = f v + sum_of f vs

sum_of-append : (f : Vote → ℕ) (vs ws : List Vote) → sum_of f (vs ++ ws) ≡ sum_of f vs + sum_of f ws
unfolding sum_of
sum_of-append f [] ws = omega arith
sum_of-append f (v ∷ vs) ws = omega (arith, sum_of-append f vs ws)

abbrev or_found : Option Vote → Option Vote → Option Vote
or_found none o = o
or_found (some v) o = some v

last_vote-by :
    (agent : String) (o : Option Vote) (vs : List Vote)
    → last_vote agent o vs ≡ or_found (vote_by agent vs) o
unfolding last_vote
last_vote-by agent o [] = refl
last_vote-by agent o (v ∷ vs) =
    last_vote-by agent (if str_eq v.agent_id agent then some v else o) vs
    ∙ elim (Option-cases (vote_by agent vs)) [
      | inr (w, e) ↦ rw (e) refl
      | inl e ↦ elim (Bool-cases (str_eq v.agent_id agent)) [
        | inl h ↦ rw (e, h) refl
        | inr h ↦ rw (e, h) refl
      ]
    ]

module _ (f : Vote → ℕ) (d : ℕ) (m : (a : String) (i : ℕ) → f (missing_vote a i) ≡ d) where
  sum_of-participants :
      (votes : List Vote) (i : ℕ) (active : List String)
      → sum_of f (participant_votes votes i active) ≡ by_participants f d votes active
  unfolding sum_of participant_votes
  sum_of-participants votes i [] = refl
  sum_of-participants votes i (a ∷ rest) = elim (Option-cases (vote_by a votes)) [
    | inl e ↦
        rw (last_vote-by a none votes, e, m a i)
          (ap (λ (n : ℕ). d + n) (sum_of-participants votes (i + 1) rest))
    | inr (v, e) ↦
        rw (last_vote-by a none votes, e)
          (ap (λ (n : ℕ). f v + n) (sum_of-participants votes (i + 1) rest))
  ]

  sum_of-others :
      (active : List String) (votes : List Vote)
      → sum_of f (outside_votes active votes) ≡ by_others f active votes
  unfolding sum_of outside_votes
  sum_of-others active [] = refl
  sum_of-others active (v ∷ vs) = elim (Bool-cases (contains v.agent_id active)) [
    | inl e ↦ rw (e) (omega (arith, sum_of-others active vs))
    | inr e ↦ rw (e) (ap (λ (n : ℕ). f v + n) (sum_of-others active vs))
  ]

  sum_of-all : (votes : List Vote) → sum_of f votes ≡ by_others f [] votes
  unfolding sum_of contains
  sum_of-all [] = refl
  sum_of-all (v ∷ vs) = ap (λ (n : ℕ). f v + n) (sum_of-all vs)

  -- The votes that count, whoever is missing.
  pub sum_of-tally :
      (votes : List Vote) (ps : Option (List String))
      → sum_of f (complete_participant_votes votes ps) ≡ tally f d votes ps
  unfolding complete_participant_votes
  sum_of-tally votes none = sum_of-all votes
  sum_of-tally votes (some []) = omega (arith, sum_of-all votes)
  sum_of-tally votes (some (a ∷ rest)) =
      sum_of-append f (participant_votes votes 0 (a ∷ rest)) (outside_votes (a ∷ rest) votes)
      ∙ rw (sum_of-participants votes 0 (a ∷ rest), sum_of-others (a ∷ rest) votes) refl

weight_of-worth : (x : Value) → weight_of x ≡ weight_worth x
unfolding weight_of
weight_of-worth absent = refl
weight_of-worth not_finite = refl
weight_of-worth (given n) = refl

confidence-worth : (x : Value) → clamp_range x 0 0 10_000 ≡ confidence_worth x
unfolding clamp_range
confidence-worth absent = refl
confidence-worth not_finite = refl
confidence-worth (given n) = omega arith

support-worth : (c : Choice) (n : ℕ) → (if same c approve then n else 0) ≡ support_worth c n
unfolding same
support-worth approve n = refl
support-worth reject n = refl
support-worth abstain n = refl

pub total-sum : (vs : List Vote) → total (map normalize_vote vs) ≡ sum_of weight_in vs
unfolding total normalize_vote sum_of
total-sum [] = refl
total-sum (v ∷ vs) = rw (weight_of-worth v.weight, total-sum vs) refl

pub confidences-sum :
    (vs : List Vote) → confidences (map normalize_vote vs) ≡ sum_of confidence_in vs
unfolding confidences normalize_vote sum_of
confidences-sum [] = refl
confidences-sum (v ∷ vs) = rw (confidence-worth v.confidence, confidences-sum vs) refl

pub length-sum : (vs : List Vote) → length (map normalize_vote vs) ≡ sum_of one_in vs
unfolding sum_of
length-sum [] = refl
length-sum (v ∷ vs) = omega (arith, length-sum vs)

pub support-sum :
    (vs : List Vote) → weight_for approve (map normalize_vote vs) ≡ sum_of support_in vs
unfolding weight_for normalize_vote sum_of
support-sum [] = refl
support-sum (v ∷ vs) =
    rw
      (
        weight_of-worth v.weight,
        confidence-worth v.confidence,
        support-worth v.verdict (weight_worth v.weight * confidence_worth v.confidence),
        support-sum vs,
      )
      refl
