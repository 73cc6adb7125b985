-- ===== src/Bus/Closing.antt =====
-- src/services/ConversationBus.ts: what `convene` leaves of a topic.
use kovael.Common.{
  Option, ◌≤◌, ◌≡◌, String, false, none, some, List, [], ◌∷◌, ◌++◌, length, if◌then◌else◌, All,
  str_eq,
}
use kovael.Table.{Table, get}
use kovael.Bus.{TopicRow, Bus, BusMessage, ActiveTopic, user, system, post_message}
use kovael.Bus.Queue.{max_turns}
use kovael.Bus.Convene.{World, Round}
use kovael.Bus.Session.{result_text}
use kovael.Bus.Weaving.{Woven, IsReply}

-- A row of a topic that is not active, if there is one.
abbrev pub IsEnded : Option TopicRow → Type 0
IsEnded none = Unit
IsEnded (some x) = x.active ≡ false

-- What closing a topic makes of its row.
abbrev pub ended : Option TopicRow → Option TopicRow
ended none = none
ended (some x) = some (record x { active = false })

-- The bus after a round table on a topic: the goal follows the messages that were there, then come
-- the turns, with what others posted between them, and last the result; the topic is closed, and of
-- a topic `k` that others leave alone, nothing else is changed.
pub record IsHeld (w : World) (topic k goal : String) (t : ActiveTopic) (b c : Bus) : Type 0 where
  pub turns : List BusMessage
  pub added : List BusMessage
  pub result : BusMessage
  pub woven : Woven turns added
  pub logged :
      c.messages
      ≡ (post_message b (w.fresh_id 0) topic "user" user goal (w.clock 0)).messages
        ++ added
        ++ result ∷ []
  pub bounded : length turns ≤ max_turns
  pub spoken : All (IsReply topic t.participants) turns
  pub from_convener : (result.sender_id ≡ "convener") × (result.role ≡ system)
  pub about_topic : result.topic_id ≡ topic
  pub inactive : IsEnded (get topic c.topics)
  pub closed : get topic c.active_topics ≡ none
  pub row : get k c.topics ≡ (if str_eq topic k then ended (get k b.topics) else get k b.topics)
  pub active : get k c.active_topics ≡ (if str_eq topic k then none else get k b.active_topics)

pub record IsQuiet (b c : Bus) : Type 0 where
  pub same_messages : c.messages ≡ b.messages
  pub same_topics : c.topics ≡ b.topics
  pub same_active : c.active_topics ≡ b.active_topics

module _ (w : World) (topic k goal : String) (t : ActiveTopic) (b : Bus) where
  result_message : Round → BusMessage
  result_message r = record {
    id = w.fresh_id r.number;
    topic_id = topic;
    sender_id = "convener";
    role = system;
    content = result_text t.title t.participants r;
    timestamp = w.clock r.number;
  }
