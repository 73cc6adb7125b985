-- ===== src/Bus/Convene.antt =====
-- src/services/ConversationBus.ts: `convene`, the round table of a topic's chairs.
--
-- A round of the loop has a number, by which the functions of `World` tell what the round meets:
-- the chair's claim, the gate, the reply, the random gain and the abort signal, and what other calls
-- do to the bus while the round waits for the stream and while it pauses after a turn. Confidence is in
-- ten-thousandths. A reply's stream is its whole text, one delta, or none where the stream throws,
-- with the message of `failure`. The loop goes on for as many turns as are left, and drops a
-- speaker where it takes no turn. A criterion's reason is its kind, without the numbers after it;
-- the receipts of a dispatch and what the providers themselves emit are left out.
use kovael.Common.{
  ℕ, zero, suc, ◌+◌, ◌-◌, ◌*◌, min, String, Bool, true, false, not, ◌&&◌, ◌||◌, Option, none, some,
  List, [], ◌∷◌, leb, ltb, length, if◌then◌else◌, ◌+++◌,
}
use kovael.Dispatches.{add}
use kovael.Bus.Queue.{next_queue}
use kovael.Bus.{
  Bus, dispatch_unavailable, dispatch_success, dispatch_rerouted, dispatch_failure, message_delta,
  stopping_criterion, assistant, emit, post_message,
}

-- What the registry says of a chair.
pub record Seat : Type 0 where
  pub is_offline : Bool
  pub has_inbox : Bool

pub record World : Type 0 where
  pub require_live : Bool
  pub seat : ℕ → String → Option Seat
  pub gate : ℕ → String → Bool
  pub reply : ℕ → String → Option String
  pub failure : ℕ → String
  pub gain : ℕ → ℕ
  pub aborted : ℕ → Bool
  pub aborted_after : ℕ → Bool
  pub while_streaming : ℕ → Bus → Bus
  pub while_pausing : ℕ → Bus → Bus
  pub clock : ℕ → ℕ
  pub fresh_id : ℕ → String

pub record Round : Type 0 where
  pub bus : Bus
  pub number : ℕ
  pub turn_count : ℕ
  pub responded : List String
  pub live : List String
  pub presence_only : List String
  pub local_fallback : List String
  pub failed : List String
  pub rolling : List ℕ

-- How a speaker is met: by presence only, live, by the local stub, or not at all.
pub data Meeting : Type 0 where
  present_only live_dispatch local_stub not_ready : Meeting

unfoldable pub meet : World → ℕ → String → Meeting
meet w n speaker = elim (w.seat n speaker) [
  | none ↦ if w.require_live then not_ready else local_stub
  | some s ↦
      if not s.is_offline && not s.has_inbox
      then present_only
      else if s.has_inbox && not s.is_offline && w.gate n speaker
      then live_dispatch
      else if w.require_live
      then not_ready
      else local_stub
]

unfoldable pub has_inbox? : Option Seat → Bool
has_inbox? none = false
has_inbox? (some s) = s.has_inbox

unfoldable pub is_rerouted : Option Seat → Bool
is_rerouted none = false
is_rerouted (some s) = s.has_inbox && not s.is_offline

unfoldable pub unavailable_text : String → String
unfolding ◌+++◌
unavailable_text a =
    "Chair " +++ a
    +++ " is online for presence only; no dispatch inbox is registered, so no live agent handoff occurred."

-- A turn of a chair that is present only.
unfoldable pub present_turn : World → String → String → Round → Round
unfolding unavailable_text emit post_message add
present_turn w topic a r =
    let text = unavailable_text a in
    let b1 = emit r.bus (dispatch_unavailable a topic) in
    let b2 = emit (emit b1 (message_delta topic a text false)) (message_delta topic a "" true) in
    record r {
      bus = post_message b2 (w.fresh_id r.number) topic a assistant text (w.clock r.number);
      number = r.number + 1;
      turn_count = r.turn_count + 1;
      responded = add a r.responded;
      presence_only = add a r.presence_only;
    }

-- Live chairs are required, and this one cannot be dispatched to.
unfoldable pub not_ready_round : World → String → String → Round → Round
unfolding has_inbox? emit add
not_ready_round w topic a r =
    let reason =
      if has_inbox? (w.seat r.number a)
      then "dispatch_gate_closed"
      else "chair_not_dispatch_ready" in
    record r {
      bus = emit r.bus (dispatch_failure a topic reason);
      number = r.number + 1;
      failed = add a r.failed;
    }

-- The stub takes the turn.
unfoldable pub fall_back : World → String → String → Round → Round
unfolding is_rerouted emit add
fall_back w topic a r = record r {
  bus = if is_rerouted (w.seat r.number a) then emit r.bus (dispatch_rerouted a topic) else r.bus;
  local_fallback = add a r.local_fallback;
}

-- What other calls do while the reply is streamed, and in the pause after a turn.
unfoldable pub streamed : World → Round → Round
streamed w r = record r { bus = w.while_streaming r.number r.bus }

unfoldable pub paused : World → Round → Round
paused w r = record r { bus = w.while_pausing r.number r.bus }

-- The stream threw: the loop ends.
unfoldable pub failed_turn : World → String → String → Round → Round
unfolding emit add
failed_turn w topic a r = record r {
  bus = emit r.bus (dispatch_failure a topic (w.failure r.number));
  number = r.number + 1;
  failed = add a r.failed;
}

unfoldable pub confidence : World → ℕ → ℕ → ℕ
confidence w n turns = min 9800 (6500 + turns * w.gain n)

unfoldable pub answered_turn : World → String → String → Bool → String → Round → Round
unfolding emit post_message add confidence
answered_turn w topic a is_live text r =
    let b1 = emit (emit r.bus (message_delta topic a text false)) (message_delta topic a "" true) in
    let b2 = post_message b1 (w.fresh_id r.number) topic a assistant text (w.clock r.number) in
    record r {
      bus = if is_live then emit b2 (dispatch_success a topic) else b2;
      number = r.number + 1;
      turn_count = r.turn_count + 1;
      responded = add a r.responded;
      live = if is_live then add a r.live else r.live;
      rolling = confidence w r.number (r.turn_count + 1) ∷ r.rolling;
    }

unfoldable pub distance : ℕ → ℕ → ℕ
distance a b = (a - b) + (b - a)

-- The stopping rule, on the confidences with the newest first.
unfoldable pub stop_reason : List ℕ → Option String
unfolding distance
stop_reason [] = none
stop_reason (c ∷ []) = none
stop_reason (c ∷ d ∷ rest) =
    let delta = distance c d in
    if leb 8500 c && (ltb delta 500 || ltb delta 1000)
    then some "hybrid_stop"
    else if not (leb 8500 c) && ltb delta 500
    then some "adaptive_stability_reached"
    else none

-- The stop after a turn: only once every participant has answered.
unfoldable pub should_stop : List String → Round → Option String
unfolding stop_reason
should_stop participants r =
    if leb (length participants) (length r.responded) then stop_reason r.rolling else none

unfoldable pub stopped : String → String → Round → Round
unfolding emit
stopped topic reason r = record r { bus = emit r.bus (stopping_criterion topic "shaev" reason) }

-- The stop, the abort, or the rest of the loop.
unfoldable pub after_turn : World → String → List String → Round → (Round → Round) → Round
unfolding should_stop stopped paused
after_turn w topic targets r rest = elim (should_stop targets r) [
  | some reason ↦ stopped topic reason r
  | none ↦ if w.aborted_after r.number then r else rest (paused w r)
]

-- The loop, with the turns that are left and the speakers in the queue.
unfoldable pub rounds : World → String → List String → List String → ℕ → List String → Round → Round
unfolding meet streamed
rounds w topic participants targets zero queue r = r
rounds w topic participants targets (suc left) [] r = r
rounds w topic participants targets (suc left) (a ∷ queue) r = elim (w.aborted r.number) [
  | true ↦ r
  | false ↦ elim (meet w r.number a) [
    | present_only ↦ rounds w topic participants targets left queue (present_turn w topic a r)
    | not_ready ↦ rounds w topic participants targets (suc left) queue (not_ready_round w topic a r)
    | live_dispatch ↦ elim (w.reply r.number a) [
      | none ↦ failed_turn w topic a (streamed w r)
      | some text ↦ after_turn w topic targets (answered_turn w topic a true text (streamed w r)) (
          rounds w topic participants targets left
            (next_queue participants a text (r.turn_count + 1) queue))
    ]
    | local_stub ↦ elim (w.reply r.number a) [
      | none ↦ failed_turn w topic a (streamed w (fall_back w topic a r))
      | some text ↦
          after_turn w topic targets
            (answered_turn w topic a false text (streamed w (fall_back w topic a r)))
            (rounds w topic participants targets left
              (next_queue participants a text (r.turn_count + 1) queue))
    ]
  ]
]
