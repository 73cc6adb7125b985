-- ===== src/Bus/Session.antt =====
-- src/services/ConversationBus.ts: `convene` from the topic to its result, around the round table.
--
-- None is the error of an inactive topic. The number 0 of `World` is that of the goal's message.
use kovael.Common.{
  String, true, false, Option, none, some, List, [], ◌∷◌, ◌==◌, leb, length, if◌then◌else◌, ◌+++◌,
  decimal,
}
use kovael.Table.{get}
use kovael.Bus.{
  Bus, ActiveTopic, user, system, emit, message_delta, stopping_criterion, post_message,
  close_topic,
}
use kovael.Bus.Queue.{max_turns, distinct}
use kovael.Bus.Convene.{World, Round, rounds}

unfoldable pub begin : Bus → Round
begin b = record {
  bus = b;
  number = 1;
  turn_count = 0;
  responded = [];
  live = [];
  presence_only = [];
  local_fallback = [];
  failed = [];
  rolling = [];
}

unfoldable pub join : List String → String
unfolding ◌+++◌
join [] = ""
join (x ∷ []) = x
join (x ∷ y ∷ rest) = x +++ ", " +++ join (y ∷ rest)

-- `list`: the distinct items, or none.
unfoldable pub names : List String → String
unfolding join distinct
names items = if length items == 0 then "none" else join (distinct [] items)

unfoldable pub result_text : String → List String → Round → String
unfolding names ◌+++◌ decimal
result_text title participants r =
    "RESULT: Convener completed \""
    +++ title
    +++ "\".\nSelected chairs: "
    +++ names participants
    +++ ".\nLive handoffs: "
    +++ names r.live
    +++ ".\nPresence-only chairs: "
    +++ names r.presence_only
    +++ ".\nLocal fallback turns: "
    +++ names r.local_fallback
    +++ ".\nFailed turns: "
    +++ names r.failed
    +++ ".\n"
    +++ (if length r.presence_only == length participants
        then "No selected chair registered a dispatch inbox, so the run produced availability receipts instead of live agent answers."
        else "Completed turns: " +++ decimal r.turn_count +++ ".")

-- The end of the loop meets the hard cap.
unfoldable pub cap_reached : String → Round → Bus
unfolding emit
cap_reached topic r =
    if leb max_turns r.turn_count
    then emit r.bus (stopping_criterion topic "nyx-antigravity" "hard_cap_reached:max_rounds=6")
    else r.bus

-- `emitConvenerResult`
unfoldable pub emit_result : World → String → String → Round → Bus → Bus
unfolding emit post_message
emit_result w topic content r b =
    let shown =
      emit (emit b (message_delta topic "convener" content false))
        (message_delta topic "convener" "" true) in
    post_message shown (w.fresh_id r.number) topic "convener" system content (w.clock r.number)

unfoldable pub seated : World → Bus → String → String → List String → Round
unfolding begin distinct rounds post_message
seated w b topic goal ps =
    rounds w topic ps (distinct [] ps) max_turns ps
      (begin (post_message b (w.fresh_id 0) topic "user" user goal (w.clock 0)))

unfoldable pub finished : World → String → ActiveTopic → Round → Bus
unfolding cap_reached emit_result result_text close_topic
finished w topic t r =
    close_topic (emit_result w topic (result_text t.title t.participants r) r (cap_reached topic r))
      topic

unfoldable pub convene : World → Bus → String → String → Option Bus
unfolding seated finished
convene w b topic goal = elim (get topic b.active_topics) [
  | none ↦ none
  | some t ↦ some (
      if length t.participants == 0
      then b
      else finished w topic t (seated w b topic goal t.participants))
]
