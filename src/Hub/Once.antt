-- ===== src/Hub/Once.antt =====
-- src/services/AgentHubStore.ts: a request is recorded once, with one payload.
use kovael.Hub.Kept.{hash_in, payload_digest, run-Keeps}
use kovael.Common.{
  ℕ, ◌≡◌, refl, sym, ap, ◌∙◌, String, Bool, true, false, none, some, List, Bool-cases, Option-cases,
  inl, inr, eq_iff, subst, str_eq, str_eq_self,
}
use kovael.Table.{get}
use kovael.Table.Laws.{get-set}
use kovael.Hub.{
  Hub, Crypto, Payload, Dispatch, Result, ok, err, hash_conflict, append_receipt, trimmed,
}
use kovael.Hub.Runtime.{
  Inserted, record_inbound_dispatch, admit, seen_again, first_seen, fresh_dispatch,
}
use kovael.Hub.Calls.{Call, settled, run}

-- The answer on a request that is known: with the same payload a duplicate without a receipt, with
-- another one a conflict.
abbrev pub Answers : Bool → Hub → Result Inserted → Type 0
Answers true h (ok h' x) = (x.duplicate ≡ true) × (h'.receipts ≡ h.receipts)
Answers true h (err e) = true ≡ false
Answers false h (ok h' x) = true ≡ false
Answers false h (err e) = e ≡ hash_conflict

-- A payload that a hub can take: its texts are there, and it is for this hub.
pub record IsFor (h : Hub) (r : String) (p : Payload) : Type 0 where
  pub topic : String
  pub requested : trimmed p.request_id ≡ some r
  pub discussed : trimmed p.topic_id ≡ some topic
  pub addressed : trimmed p.agent_id ≡ some h.agent_id

seen_again-Answers :
    (h : Hub) (r hash : String) (d : Dispatch) (now : ℕ)
    → str_eq d.payload_hash "" ≡ false
    → Answers (str_eq d.payload_hash hash) h (seen_again h r d hash now)
unfolding seen_again
seen_again-Answers h r hash d now e = elim (Bool-cases (str_eq d.payload_hash hash)) [
  | inl f ↦ rw (e, f) (refl, refl)
  | inr f ↦ rw (e, f) refl
]

known-Answers :
    (k : Crypto) (h : Hub) (id r x : String) (p : Payload) (now : ℕ)
    → IsFor h r p
    → str_eq x "" ≡ false
    → hash_in (get r h.dispatches) ≡ some x
    → Answers (str_eq x (payload_digest k p)) h (record_inbound_dispatch k h id p now)
unfolding record_inbound_dispatch admit
known-Answers k h id r x p now v e f = elim (Option-cases (get r h.dispatches)) [
  | inl g ↦ let w = ap hash_in g in cc
  | inr (d, g) ↦
      let w : some d.payload_hash ≡ some x = ap hash_in (sym g) ∙ f in
      let same_hash : d.payload_hash ≡ x = cc in
      rw
        (
          v.requested,
          v.discussed,
          v.addressed,
          str_eq_self h.agent_id,
          g,
          record_inbound_dispatch,
          admit,
          sym same_hash,
        )
        (seen_again-Answers h r (payload_digest k p) d now (ap (λ s. str_eq s "") same_hash ∙ e))
]

first-hash :
    (k : Crypto) (h : Hub) (id r : String) (p : Payload) (now : ℕ)
    → IsFor h r p
    → get r h.dispatches ≡ none
    → hash_in (get r (settled h (record_inbound_dispatch k h id p now)).dispatches)
      ≡ some (payload_digest k p)
unfolding record_inbound_dispatch admit settled first_seen append_receipt fresh_dispatch
first-hash k h id r p now v g =
    rw
      (
        v.requested,
        v.discussed,
        v.addressed,
        str_eq_self h.agent_id,
        g,
        record_inbound_dispatch,
        admit,
        get-set r r (fresh_dispatch k v.topic h.agent_id p now) h.dispatches,
        str_eq_self r,
      )
      refl

-- The JSON text of a payload, of which the digest is taken.
abbrev pub text_of : Crypto → Payload → String
text_of k p = k.payload_json p

same_digest :
    (k : Crypto) (s t : String)
    → ((a b : String) → k.sha256 a ≡ k.sha256 b → a ≡ b)
    → str_eq (k.sha256 s) (k.sha256 t) ≡ str_eq s t
same_digest k s t apart = elim (Bool-cases (str_eq s t)) [
  | inl e ↦ rw (e) ((eq_iff (k.sha256 s) (k.sha256 t)).1 (ap k.sha256 ((eq_iff s t).0 e)))
  | inr e ↦ elim (Bool-cases (str_eq (k.sha256 s) (k.sha256 t))) [
    | inl f ↦
        let same_text : str_eq s t ≡ true =
          (eq_iff s t).1 (apart s t ((eq_iff (k.sha256 s) (k.sha256 t)).0 f)) in
        cc
    | inr f ↦ f ∙ sym e
  ]
]

-- With a digest that has no collisions and is not empty: once a hub has recorded a new request, and
-- after any calls, a payload with another JSON text for that request is refused as a conflict, and
-- one with the same text answered as a duplicate, for which no receipt is added.
pub record_inbound_dispatch-once :
    (k : Crypto) (h : Hub) (id id' r : String) (p q : Payload) (now then_ : ℕ)
    (cs : List (ℕ × Call))
    → ((a b : String) → k.sha256 a ≡ k.sha256 b → a ≡ b)
    → IsFor h r p
    → get r h.dispatches ≡ none
    → str_eq (payload_digest k p) "" ≡ false
    → let h' = run k (settled h (record_inbound_dispatch k h id p now)) cs in
      IsFor h' r q
      → Answers (str_eq (text_of k p) (text_of k q)) h' (record_inbound_dispatch k h' id' q then_)
record_inbound_dispatch-once k h id id' r p q now then_ cs apart v g e w =
    let h1 = settled h (record_inbound_dispatch k h id p now) in
    let answer =
      known-Answers k (run k h1 cs) id' r (payload_digest k p) q then_ w e
        (run-Keeps k cs h1 r (payload_digest k p) (first-hash k h id r p now v g)) in
    subst
      (λ (b : Bool). Answers b (run k h1 cs) (record_inbound_dispatch k (run k h1 cs) id' q then_))
      (same_digest k (text_of k p) (text_of k q) apart) answer
