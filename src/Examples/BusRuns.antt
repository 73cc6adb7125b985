-- ===== src/Examples/BusRuns.antt =====
-- src/services/ConversationBus.ts: a round table of two chairs.
use kovael.Common.{
  String, true, false, ◌≡◌, refl, Option, none, some, List, [], ◌∷◌, map, arith, last_n, drop, not,
  str_eq,
}
use kovael.Table.{get, set}
use kovael.Bus.{
  Bus, Json, BusMessage, user, assistant, open_bus, create_topic, post_message, get_history,
  of_topic, chat_message, parse_mentions,
}
use kovael.Bus.Queue.{next_queue}
use kovael.Bus.Convene.{World, Seat, after_turn, answered_turn, present_turn}
use kovael.Bus.Session.{convene}
use kovael.Bus.History.{get_history-latest}

abbrev json : Json
json = record { encode = λ ps. ""; decode = λ s. none }

abbrev bus : Bus
bus = create_topic (open_bus json [] []) "t1" "Bread" ("shaev" ∷ "nyx" ∷ [])

-- The first chair is present only, the other has an inbox and asks the first.
seat_of : String → Option Seat
seat_of a = some (record { is_offline = false; has_inbox = not (str_eq a "shaev") })

abbrev world : World
world = record {
  require_live = true;
  seat = λ n a. seat_of a;
  gate = λ n a. true;
  reply = λ n a. some "Done, @shaev";
  failure = λ n. "aborted";
  gain = λ n. 900;
  aborted = λ n. false;
  aborted_after = λ n. false;
  while_streaming = λ n b. post_message b "x" "t2" "user" user "Hm" n;
  while_pausing = λ n b. b;
  clock = λ n. n;
  fresh_id = λ n. "m";
}

mentioned : parse_mentions "Done, @shaev" ≡ "shaev" ∷ []
unfolding parse_mentions
mentioned = refl

abbrev posted : Bus
posted =
    post_message
      (post_message (post_message bus "m1" "t1" "user" user "one" 5) "m2" "t2" "user" user "two" 6)
      "m3" "t1" "shaev" assistant "three" 6

newest_first :
    get_history posted "t1" 1 ≡ record { role = assistant; content = "three"; name = "shaev" } ∷ []
unfolding get_history post_message create_topic open_bus last_n drop
newest_first = refl

get_history-latest_example :
    get_history posted "t1" 1 ≡ map chat_message (last_n 1 (of_topic "t1" posted.messages))
unfolding post_message create_topic open_bus
get_history-latest_example = get_history-latest posted "t1" 1 (omega arith, (omega arith, (tt, tt)))

abbrev senders_of : Option Bus → List String
senders_of none = []
senders_of (some b) = map (λ (m : BusMessage). m.sender_id) b.messages

alternates :
    senders_of (convene world bus "t1" "Bake")
    ≡ "user" ∷ "shaev" ∷ "user" ∷ "nyx" ∷ "shaev" ∷ "convener" ∷ []
unfolding convene create_topic open_bus seat_of get set after_turn answered_turn present_turn
    post_message next_queue parse_mentions
alternates = refl
