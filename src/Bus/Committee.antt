-- ===== src/Bus/Committee.antt =====
-- src/services/ConversationBus.ts: `conveneCommittee`, a vote on a topic.
--
-- None is the error of a topic that is not active. The synthesized votes and the text of a verdict's
-- numbers are arguments.
use kovael.Common.{ℕ, String, Option, none, some, List, [], ◌∷◌, or_default, ◌+++◌}
use kovael.Table.{get}
use kovael.Consensus.{
  Vote, Options, Verdict, Status, accepted, failed, needs_sidecar, evaluate_committee,
}
use kovael.Bus.{
  Bus, BusEvent, committee_started, committee_vote, committee_verdict, committee_failed, system,
  emit, post_message,
}

pub record Settings : Type 0 where
  pub votes : Option (List Vote)
  pub options : Options
  pub sidecar_candidates : Option (List String)

abbrev default_sidecars : List String
default_sidecars = "nyx-openclaw" ∷ "shaev" ∷ "nyx-codex" ∷ []

unfoldable pub emit_votes : Bus → String → List Vote → Bus
unfolding emit
emit_votes b topic [] = b
emit_votes b topic (v ∷ vs) = emit_votes (emit b (committee_vote topic v.agent_id)) topic vs

unfoldable pub status_text : Status → String
status_text accepted = "accepted"
status_text failed = "failed"
status_text needs_sidecar = "needs_sidecar"

unfoldable pub outcome_of : Status → String → BusEvent
outcome_of accepted topic = committee_verdict topic
outcome_of failed topic = committee_failed topic
outcome_of needs_sidecar topic = committee_failed topic

unfoldable pub judged : Settings → List String → List Vote → Verdict
unfolding evaluate_committee
judged s participants votes = evaluate_committee votes (record s.options {
  active_participants = some participants;
  sidecar_candidates = or_default s.sidecar_candidates default_sidecars;
})

unfoldable pub convene_committee :
    (String → List String → List Vote)
    → (Verdict → String)
    → Bus
    → String
    → String
    → Settings
    → String
    → ℕ
    → Option (Bus × Verdict)
unfolding emit emit_votes judged outcome_of post_message status_text ◌+++◌
convene_committee synthesize numbers b topic goal s id now = elim (get topic b.active_topics) [
  | none ↦ none
  | some t ↦
      let votes = or_default s.votes (synthesize goal t.participants) in
      let verdict = judged s t.participants votes in
      let b1 = emit_votes (emit b (committee_started topic t.participants)) topic votes in
      let b2 = emit b1 (outcome_of verdict.status topic) in
      some (
        post_message b2 id topic "committee" system
            ("Committee " +++ status_text verdict.status +++ ": " +++ numbers verdict) now,
        verdict,
      )
]
