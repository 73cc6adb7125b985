-- ===== src/Bus/Weaving.antt =====
-- src/services/ConversationBus.ts: the messages of a round table among those of other calls.
use kovael.Common.{ℕ, ◌+◌, ◌≤◌, ◌≡◌, String, true, List, [], ◌∷◌, ◌++◌, length, All}
use kovael.Dispatches.{contains}
use kovael.Table.{get}
use kovael.Bus.{Bus, BusMessage, assistant}
use kovael.Bus.Convene.{Round}

-- A reply of a participant, in the topic.
pub record IsReply (topic : String) (ps : List String) (m : BusMessage) : Type 0 where
  pub in_topic : m.topic_id ≡ topic
  pub by_participant : contains m.sender_id ps ≡ true
  pub spoken : m.role ≡ assistant

-- The first messages stand among the second in their order.
pub data Woven : List BusMessage → List BusMessage → Type 0 where
  ends : Woven [] []
  own : {t : BusMessage} {ts ms : List BusMessage} → Woven ts ms → Woven (t ∷ ts) (t ∷ ms)
  foreign : {m : BusMessage} {ts ms : List BusMessage} → Woven ts ms → Woven ts (m ∷ ms)

pub foreign-Woven : (ms : List BusMessage) → Woven [] ms
foreign-Woven [] = ends
foreign-Woven (m ∷ ms) = foreign (foreign-Woven ms)

pub append-Woven :
    {ts ms us ns : List BusMessage} → Woven ts ms → Woven us ns → Woven (ts ++ us) (ms ++ ns)
append-Woven ends v = v
append-Woven (own u) v = own (append-Woven u v)
append-Woven (foreign u) v = foreign (append-Woven u v)

-- What other calls may do meanwhile: they post messages, in any topic, and open and close topics, but
-- not the topic `k`.
pub record IsBeside (k : String) (others : ℕ → Bus → Bus) : Type 0 where
  pub posts :
      (n : ℕ) (b : Bus) → (ms : List BusMessage) × ((others n b).messages ≡ b.messages ++ ms)
  pub leaves : (n : ℕ) (b : Bus) → get k (others n b).active_topics ≡ get k b.active_topics
  pub leaves_row : (n : ℕ) (b : Bus) → get k (others n b).topics ≡ get k b.topics

-- From one state of the loop to a later one: the messages that were added, among them the replies,
-- each of them a turn; and the topic `k` is as it was.
pub record Grows (topic k : String) (ps : List String) (left : ℕ) (r s : Round) : Type 0 where
  pub turns : List BusMessage
  pub added : List BusMessage
  pub woven : Woven turns added
  pub logged : s.bus.messages ≡ r.bus.messages ++ added
  pub counted : s.turn_count ≡ r.turn_count + length turns
  pub bounded : length turns ≤ left
  pub spoken : All (IsReply topic ps) turns
  pub same_row : get k s.bus.topics ≡ get k r.bus.topics
  pub same_active : get k s.bus.active_topics ≡ get k r.bus.active_topics
