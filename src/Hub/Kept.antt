-- ===== src/Hub/Kept.antt =====
-- src/services/AgentHubStore.ts: a request keeps the hash of its payload.
use kovael.Common.{
  ℕ, ◌≡◌, refl, sym, ap, ◌∙◌, String, not, ◌&&◌, Option, none, some, List, [], ◌∷◌, Bool-cases,
  Option-cases, inl, inr, str_eq, eq_iff,
}
use kovael.Table.{Table, get, set}
use kovael.Table.Laws.{get-set}
use kovael.Hub.{Hub, Crypto, Payload, Dispatch, append_receipt, trimmed}
use kovael.Hub.Memory.{
  get_memory, get_cache, upsert_memory, prune_expired_cache, prune_old_receipts,
}
use kovael.Hub.Frames.{
  send_reply-IsFramed, sent-IsFramed, leases-IsFramed, misses-IsFramed, upsert-IsFramed,
  cache-IsFramed, get-IsFramed,
}
use kovael.Hub.Runtime.{
  ProofFields, record_inbound_dispatch, mark_dispatch_running, schedule_dispatch_replay,
  mark_dispatch_succeeded, mark_dispatch_failed, admit, seen_again, first_seen, started_dispatch,
}
use kovael.Hub.Outbox.{prune_terminal_outbox}
use kovael.Hub.Calls.{
  Call, records, runs, replays, succeeds, fails, delivers, leases, misses, remembers, caches,
  recalls, looks_up, prunes_cache, prunes_outbox, prunes_receipts, settled, step, run,
}

abbrev pub hash_in : Option Dispatch → Option String
hash_in none = none
hash_in (some d) = some d.payload_hash

abbrev pub payload_digest : Crypto → Payload → String
payload_digest k p = k.sha256 (k.payload_json p)

-- The dispatches after a call, given those before: a request keeps its hash.
abbrev pub Keeps : Hub → Hub → Type 0
Keeps h h' =
    (r x : String) → hash_in (get r h.dispatches) ≡ some x → hash_in (get r h'.dispatches) ≡ some x

same-hash :
    (t t' : Table Dispatch)
    → t' ≡ t
    → (r x : String) → hash_in (get r t) ≡ some x
    → hash_in (get r t') ≡ some x
same-hash t t' e r x v = ap (λ (u : Table Dispatch). hash_in (get r u)) e ∙ v

hash-set :
    (t : Table Dispatch) (r s x : String) (d d' : Dispatch)
    → get s t ≡ some d
    → d'.payload_hash ≡ d.payload_hash
    → hash_in (get r t) ≡ some x
    → hash_in (get r (set s d' t)) ≡ some x
hash-set t r s x d d' e f v = rw (get-set s r d' t) (elim (Bool-cases (str_eq s r)) [
  | inl g ↦ rw (g) (
      ap some f
      ∙ sym (ap hash_in e)
      ∙ ap (λ (q : String). hash_in (get q t)) ((eq_iff s r).0 g)
      ∙ v)
  | inr g ↦ rw (g) v
])

hash-new :
    (t : Table Dispatch) (r s x : String) (d' : Dispatch)
    → get s t ≡ none
    → hash_in (get r t) ≡ some x
    → hash_in (get r (set s d' t)) ≡ some x
hash-new t r s x d' e v = rw (get-set s r d' t) (elim (Bool-cases (str_eq s r)) [
  | inl g ↦
      let f : hash_in (get r t) ≡ none =
        ap (λ (q : String). hash_in (get q t)) (sym ((eq_iff s r).0 g)) ∙ ap hash_in e in
      cc
  | inr g ↦ rw (g) v
])

module _ (k : Crypto) (h : Hub) (now : ℕ) where
  admit-Keeps :
      (id s topic agent : String) (p : Payload)
      → Keeps h (settled h (admit k h id s topic agent p now))
  unfolding admit seen_again first_seen append_receipt settled
  admit-Keeps id s topic agent p r x v = elim (Bool-cases (not (str_eq agent h.agent_id))) [
    | inl e ↦ rw (e) v
    | inr e ↦ elim (Option-cases (get s h.dispatches)) [
      | inl f ↦ rw (e, f, admit) (hash-new h.dispatches r s x _ f v)
      | inr (d, f) ↦
          elim (Bool-cases
            (not (str_eq d.payload_hash "") && not (str_eq d.payload_hash (payload_digest k p)))) [
              | inl g ↦ rw (e, f, g, admit, seen_again) v
              | inr g ↦ rw (e, f, g, admit, seen_again) (hash-set h.dispatches r s x d _ f refl v)
            ]
    ]
  ]

  record_inbound-Keeps :
      (id : String) (p : Payload) → Keeps h (settled h (record_inbound_dispatch k h id p now))
  unfolding record_inbound_dispatch settled
  record_inbound-Keeps id p r x v = elim (Option-cases (trimmed p.request_id)) [
    | inl e ↦ rw (e, record_inbound_dispatch) v
    | inr (s, e) ↦ elim (Option-cases (trimmed p.topic_id)) [
      | inl f ↦ rw (e, f, record_inbound_dispatch) v
      | inr (t, f) ↦ elim (Option-cases (trimmed p.agent_id)) [
        | inl g ↦ rw (e, f, g, record_inbound_dispatch) v
        | inr (a, g) ↦ rw (e, f, g, record_inbound_dispatch) (admit-Keeps id s t a p r x v)
      ]
    ]
  ]

  running-Keeps : (id s : String) → Keeps h (settled h (mark_dispatch_running k h id s now))
  unfolding mark_dispatch_running append_receipt settled started_dispatch
  running-Keeps id s r x v = elim (Option-cases (get s h.dispatches)) [
    | inl e ↦ rw (e, mark_dispatch_running) v
    | inr (d, e) ↦ rw (e, mark_dispatch_running) (hash-set h.dispatches r s x d _ e refl v)
  ]

  replay-Keeps : (s : String) (t : ℕ) → Keeps h (settled h (schedule_dispatch_replay h s t))
  unfolding schedule_dispatch_replay settled
  replay-Keeps s t r x v = elim (Option-cases (get s h.dispatches)) [
    | inl e ↦ rw (e, schedule_dispatch_replay) v
    | inr (d, e) ↦ rw (e, schedule_dispatch_replay) (hash-set h.dispatches r s x d _ e refl v)
  ]

  succeeded-Keeps :
      (id box s content : String) (f : ProofFields)
      → Keeps h (settled h (mark_dispatch_succeeded k h id box s content f now))
  unfolding mark_dispatch_succeeded settled append_receipt
  succeeded-Keeps id box s content f r x v = elim (Option-cases (get s h.dispatches)) [
    | inl e ↦ rw (e, mark_dispatch_succeeded) v
    | inr (d, e) ↦
        rw (e, mark_dispatch_succeeded, (send_reply-IsFramed k h now box s d _).1)
          (hash-set h.dispatches r s x d _ e refl v)
  ]

  failed-Keeps :
      (id box s error : String) (f : ProofFields)
      → Keeps h (settled h (mark_dispatch_failed k h id box s error f now))
  unfolding mark_dispatch_failed settled append_receipt
  failed-Keeps id box s error f r x v = elim (Option-cases (get s h.dispatches)) [
    | inl e ↦ rw (e, mark_dispatch_failed) v
    | inr (d, e) ↦
        rw (e, mark_dispatch_failed, (send_reply-IsFramed k h now box s d _).1)
          (hash-set h.dispatches r s x d _ e refl v)
  ]

  step-Keeps : (c : Call) → Keeps h (step k h (now, c))
  unfolding step upsert_memory get_memory get_cache prune_expired_cache prune_terminal_outbox
      prune_old_receipts
  step-Keeps (records id p) = record_inbound-Keeps id p
  step-Keeps (runs id s) = running-Keeps id s
  step-Keeps (replays s t) = replay-Keeps s t
  step-Keeps (succeeds id box s content f) = succeeded-Keeps id box s content f
  step-Keeps (fails id box s e f) = failed-Keeps id box s e f
  step-Keeps (delivers id) = same-hash h.dispatches _ (sent-IsFramed k h now id).1
  step-Keeps (leases limit lease) = same-hash h.dispatches _ (leases-IsFramed k h now limit lease).1
  step-Keeps (misses id e t n) = same-hash h.dispatches _ (misses-IsFramed k h now id e t n).1
  step-Keeps (remembers key value ttl) =
      same-hash h.dispatches _ (upsert-IsFramed k h now key value _ ttl).1
  step-Keeps (caches key value ttl) =
      same-hash h.dispatches _ (cache-IsFramed k h now key value ttl).1
  step-Keeps (recalls key) = same-hash h.dispatches _ (get-IsFramed k h now key _).1
  step-Keeps (looks_up key) = same-hash h.dispatches _ (get-IsFramed k h now key _).1
  step-Keeps prunes_cache = λ r x v. v
  step-Keeps (prunes_outbox before) = λ r x v. v
  step-Keeps (prunes_receipts before) = λ r x v. v

pub run-Keeps : (k : Crypto) (cs : List (ℕ × Call)) (h : Hub) → Keeps h (run k h cs)
unfolding run
run-Keeps k [] h r x v = v
run-Keeps k ((now, c) ∷ cs) h r x v =
    run-Keeps k cs (step k h (now, c)) r x (step-Keeps k h now c r x v)
