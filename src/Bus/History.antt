-- ===== src/Bus/History.antt =====
-- src/services/ConversationBus.ts: `getHistory` reads the last messages of a topic.
use kovael.Common.{
  ℕ, ◌≤◌, ◌≡◌, refl, ap, String, false, List, [], ◌∷◌, map, arith, ltb, last_n, Bool-cases, inl,
  inr, str_eq,
}
use kovael.Bus.{Bus, BusMessage, of_topic, insert_by_time, order_by_time, chat_message, get_history}

-- A message is no later than the next one.
abbrev pub Before : ℕ → List BusMessage → Type 0
Before n [] = Unit
Before n (m ∷ ms) = n ≤ m.timestamp

abbrev pub InOrder : List BusMessage → Type 0
InOrder [] = Unit
InOrder (m ∷ ms) = Before m.timestamp ms × InOrder ms

insert_by_time-first :
    (m : BusMessage) (ms : List BusMessage) → Before m.timestamp ms → insert_by_time m ms ≡ m ∷ ms
unfolding insert_by_time
insert_by_time-first m [] h = refl
insert_by_time-first m (x ∷ xs) h =
    let e : ltb x.timestamp m.timestamp ≡ false = ground arith in rw (e) refl

order_by_time-InOrder : (ms : List BusMessage) → InOrder ms → order_by_time ms ≡ ms
unfolding order_by_time
order_by_time-InOrder [] h = refl
order_by_time-InOrder (m ∷ ms) h = rw (order_by_time-InOrder ms h.1) (insert_by_time-first m ms h.0)

Before-rest :
    (n : ℕ) (m : BusMessage) (ms : List BusMessage)
    → n ≤ m.timestamp
    → Before m.timestamp ms
    → Before n ms
Before-rest n m [] h k = tt
Before-rest n m (x ∷ xs) h k = omega arith

Before-of_topic :
    (n : ℕ) (id : String) (ms : List BusMessage)
    → InOrder ms
    → Before n ms
    → Before n (of_topic id ms)
unfolding of_topic
Before-of_topic n id [] h k = tt
Before-of_topic n id (m ∷ ms) h k = elim (Bool-cases (str_eq m.topic_id id)) [
  | inl e ↦ rw (e) k
  | inr e ↦ rw (e) (Before-of_topic n id ms h.1 (Before-rest n m ms k h.0))
]

of_topic-InOrder : (id : String) (ms : List BusMessage) → InOrder ms → InOrder (of_topic id ms)
unfolding of_topic
of_topic-InOrder id [] h = tt
of_topic-InOrder id (m ∷ ms) h = elim (Bool-cases (str_eq m.topic_id id)) [
  | inl e ↦ rw (e) (Before-of_topic m.timestamp id ms h.1 h.0, of_topic-InOrder id ms h.1)
  | inr e ↦ rw (e) (of_topic-InOrder id ms h.1)
]

-- While the clock does not run back, the history of a topic is the last of its messages, oldest
-- first, in the order in which they were posted, as many as the limit allows.
pub get_history-latest :
    (b : Bus) (id : String) (limit : ℕ)
    → InOrder b.messages
    → get_history b id limit ≡ map chat_message (last_n limit (of_topic id b.messages))
unfolding get_history
get_history-latest b id limit h =
    ap (λ ms. map chat_message (last_n limit ms))
      (order_by_time-InOrder (of_topic id b.messages) (of_topic-InOrder id b.messages h))
