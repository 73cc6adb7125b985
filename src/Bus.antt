-- ===== src/Bus.antt =====
-- src/services/ConversationBus.ts: topics, their messages, and the mentions in a text.
--
-- The tables of the database are the lists of their rows, in the order of insertion. JSON text and
-- identifiers are arguments. What is emitted is kept newest first.
pub mod Convene
pub mod History
pub mod Closing
pub mod Committee
pub mod Queue
pub mod Rounds
pub mod Weaving
pub mod Session
use Prim.Native.Char.{Char, code}
use kovael.Common.{
  ℕ, zero, suc, ◌+◌, String, Bool, true, false, not, ◌&&◌, ◌||◌, Option, none, some, List, [], ◌∷◌,
  ◌++◌, map, leb, ltb, ◌==◌, length, last_n, or_default, str_eq, if◌then◌else◌, ◌+++◌,
}
use kovael.Table.{Table, get, set, delete, has, size}

pub data Role : Type 0 where
  system user assistant : Role

pub record BusMessage : Type 0 where
  pub id : String
  pub topic_id : String
  pub sender_id : String
  pub role : Role
  pub content : String
  pub timestamp : ℕ

pub record ChatMessage : Type 0 where
  pub role : Role
  pub content : String
  pub name : String

pub record TopicRow : Type 0 where
  pub title : String
  pub participants : String
  pub active : Bool

pub record ActiveTopic : Type 0 where
  pub id : String
  pub title : String
  pub participants : List String
  pub token_budgets : Table ℕ

-- The events of the bus, with what tells them apart.
pub data BusEvent : Type 0 where
  topic_opened topic_closed : String → BusEvent
  dispatch_unavailable dispatch_success dispatch_rerouted : String → String → BusEvent
  dispatch_failure : String → String → String → BusEvent
  message_delta : String → String → String → Bool → BusEvent
  stopping_criterion : String → String → String → BusEvent
  committee_started : String → List String → BusEvent
  committee_vote : String → String → BusEvent
  committee_verdict committee_failed : String → BusEvent

pub record Json : Type 0 where
  pub encode : List String → String
  pub decode : String → Option (List String)

pub record Bus : Type 0 where
  pub json : Json
  pub topics : Table TopicRow
  pub messages : List BusMessage
  pub active_topics : Table ActiveTopic
  pub emitted : List BusEvent

-- `new Map(participants.map((p) => [p, 4000]))`
unfoldable pub budgets_from : Table ℕ → List String → Table ℕ
budgets_from t [] = t
budgets_from t (p ∷ ps) = budgets_from (set p 4000 t) ps

unfoldable pub active_topic : String → String → List String → ActiveTopic
unfolding budgets_from
active_topic id title participants = record {
  id = id;
  title = title;
  participants = participants;
  token_budgets = budgets_from [] participants;
}

-- `hydrateActiveTopics`, over the rows with `active = 1`.
unfoldable pub hydrate : Json → Table TopicRow → Table ActiveTopic → Table ActiveTopic
unfolding active_topic
hydrate j [] t = t
hydrate j ((id, w) ∷ rows) t = hydrate j rows (
    if w.active
    then set id (active_topic id w.title (or_default (j.decode w.participants) [])) t
    else t)

unfoldable pub open_bus : Json → Table TopicRow → List BusMessage → Bus
unfolding hydrate
open_bus j rows messages = record {
  json = j;
  topics = rows;
  messages = messages;
  active_topics = hydrate j rows [];
  emitted = [];
}

unfoldable pub active_topic_count : Bus → ℕ
active_topic_count b = size b.active_topics

unfoldable pub emit : Bus → BusEvent → Bus
emit b e = record b { emitted = e ∷ b.emitted }

-- The identifier is a fresh one, so the row is a new one.
unfoldable pub create_topic : Bus → String → String → List String → Bus
unfolding active_topic emit
create_topic b id title participants =
    emit
      (record b {
        topics =
            set id
              (record { title = title; participants = b.json.encode participants; active = true })
              b.topics;
        active_topics = set id (active_topic id title participants) b.active_topics;
      })
      (topic_opened id)

unfoldable pub deactivate : String → Table TopicRow → Table TopicRow
deactivate id rows = elim (get id rows) [
  | none ↦ rows
  | some w ↦ set id (record w { active = false }) rows
]

unfoldable pub close_topic : Bus → String → Bus
unfolding deactivate emit
close_topic b id =
    emit (record b { topics = deactivate id b.topics; active_topics = delete id b.active_topics })
      (topic_closed id)

unfoldable pub post_message : Bus → String → String → String → Role → String → ℕ → Bus
post_message b id topic_id sender role content now = record b {
  messages =
      b.messages
      ++ record {
        id = id;
        topic_id = topic_id;
        sender_id = sender;
        role = role;
        content = content;
        timestamp = now;
      }
        ∷ [];
}

unfoldable pub of_topic : String → List BusMessage → List BusMessage
of_topic id [] = []
of_topic id (m ∷ ms) = let rest = of_topic id ms in if str_eq m.topic_id id then m ∷ rest else rest

-- Ascending by time, and by insertion where the times agree.
unfoldable pub insert_by_time : BusMessage → List BusMessage → List BusMessage
insert_by_time m [] = m ∷ []
insert_by_time m (x ∷ xs) =
    let rest = insert_by_time m xs in if ltb x.timestamp m.timestamp then x ∷ rest else m ∷ x ∷ xs

unfoldable pub order_by_time : List BusMessage → List BusMessage
unfolding insert_by_time
order_by_time [] = []
order_by_time (m ∷ ms) = insert_by_time m (order_by_time ms)

unfoldable pub chat_message : BusMessage → ChatMessage
chat_message m = record { role = m.role; content = m.content; name = m.sender_id }

-- `ORDER BY timestamp DESC, rowid DESC LIMIT ?`, reversed: the last of the ascending order.
unfoldable pub get_history : Bus → String → ℕ → List ChatMessage
unfolding of_topic order_by_time chat_message
get_history b id limit = map chat_message (last_n limit (order_by_time (of_topic id b.messages)))

-- `[a-zA-Z0-9_-]`
unfoldable pub is_word : Char → Bool
is_word c =
    (leb b'a' (code c) && leb (code c) b'z')
    || (leb b'A' (code c) && leb (code c) b'Z')
    || (leb b'0' (code c) && leb (code c) b'9')
    || (code c == b'_')
    || (code c == b'-')

unfoldable pub close_mention : Option String → List String → List String
close_mention none rest = rest
close_mention (some s) rest = if str_eq s "" then rest else s ∷ rest

-- The mention that is being read, after a character: it goes on, begins with an `@`, or ends.
unfoldable pub next_mention : Option String → Char → Option String
unfolding is_word ◌+++◌
next_mention none c = if code c == b'@' then some "" else none
next_mention (some s) c =
    if is_word c
    then some (s +++ String.◌∷◌ c String.[])
    else if code c == b'@'
    then some ""
    else none

unfoldable pub ended_mention : Option String → Char → List String → List String
unfolding is_word close_mention
ended_mention none c rest = rest
ended_mention (some s) c rest = if is_word c then rest else close_mention (some s) rest

-- The matches of `@([a-zA-Z0-9_-]+)`, without the `@`, given the one that is being read.
unfoldable pub scan_mentions : Option String → String → List String
unfolding next_mention ended_mention close_mention
scan_mentions acc String.[] = close_mention acc []
scan_mentions acc (String.◌∷◌ c s) = ended_mention acc c (scan_mentions (next_mention acc c) s)

unfoldable pub parse_mentions : String → List String
unfolding scan_mentions
parse_mentions content = scan_mentions none content
