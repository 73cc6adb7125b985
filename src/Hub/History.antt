-- ===== src/Hub/History.antt =====
-- src/services/AgentHubStore.ts: any calls on a hub leave chains of receipts.
use kovael.Common.{
  ℕ, ◌≤◌, ◌≡◌, refl, ap, String, not, ◌&&◌, List, [], ◌∷◌, ◌++◌, Bool-cases, Option-cases, inl, inr,
  str_eq,
}
use kovael.Table.{get}
use kovael.Hub.{Hub, Crypto, Payload, Receipt, Body, append_receipt, receipt_after, trimmed}
use kovael.Hub.Memory.{
  prune_receipts, prune_old_receipts, get_memory, get_cache, upsert_memory, prune_expired_cache,
}
use kovael.Hub.Runtime.{
  ProofFields, record_inbound_dispatch, mark_dispatch_running, schedule_dispatch_replay,
  mark_dispatch_succeeded, mark_dispatch_failed, admit, seen_again, first_seen,
}
use kovael.Hub.Outbox.{prune_terminal_outbox}
use kovael.Hub.Calls.{
  Call, records, runs, replays, succeeds, fails, delivers, leases, misses, remembers, caches,
  recalls, looks_up, prunes_cache, prunes_outbox, prunes_receipts, settled, step, run, create,
}
use kovael.Hub.Frames.{
  send_reply-IsFramed, sent-IsFramed, leases-IsFramed, misses-IsFramed, upsert-IsFramed,
  cache-IsFramed, get-IsFramed,
}
use kovael.Hub.Chain.{IsLog, IsLog-later, receipt_after-IsLog, prune_receipts-IsLog, of_request}

-- What a call does to the receipts.
data Written (k : Crypto) (xs : List Receipt) (now : ℕ) (ys : List Receipt) : Type 0 where
  keeps : ys ≡ xs → Written k xs now ys
  adds :
      (id r : String) (body : Body)
      → ys ≡ xs ++ receipt_after k xs id r body now ∷ []
      → Written k xs now ys
  drops : (before : ℕ) → ys ≡ prune_receipts before xs → Written k xs now ys

Written-IsLog :
    (k : Crypto) (xs : List Receipt) (now : ℕ) (ys : List Receipt)
    → Written k xs now ys
    → IsLog k xs now
    → IsLog k ys now
Written-IsLog k xs now ys (keeps e) v = rw (e) v
Written-IsLog k xs now ys (adds id r body e) v = rw (e) (receipt_after-IsLog k xs id r body now v)
Written-IsLog k xs now ys (drops before e) v = rw (e) (prune_receipts-IsLog k before now xs v)

module _ (k : Crypto) (h : Hub) (now : ℕ) where
  abbrev Writes : Hub → Type 0
  Writes h' = Written k h.receipts now h'.receipts

  admit-Writes :
      (id r topic agent : String) (p : Payload)
      → Writes (settled h (admit k h id r topic agent p now))
  unfolding admit seen_again first_seen append_receipt settled
  admit-Writes id r topic agent p = elim (Bool-cases (not (str_eq agent h.agent_id))) [
    | inl e ↦ rw (e) (keeps refl)
    | inr e ↦ elim (Option-cases (get r h.dispatches)) [
      | inl f ↦ rw (e, f, admit) (adds id r _ refl)
      | inr (d, f) ↦
          elim (Bool-cases (
            not (str_eq d.payload_hash "")
            && not (str_eq d.payload_hash (k.sha256 (k.payload_json p))))) [
              | inl g ↦ rw (e, f, g, admit, seen_again) (keeps refl)
              | inr g ↦ rw (e, f, g, admit, seen_again) (keeps refl)
            ]
    ]
  ]

  record_inbound-Writes :
      (id : String) (p : Payload) → Writes (settled h (record_inbound_dispatch k h id p now))
  unfolding record_inbound_dispatch settled
  record_inbound-Writes id p = elim (Option-cases (trimmed p.request_id)) [
    | inl e ↦ rw (e, record_inbound_dispatch) (keeps refl)
    | inr (r, e) ↦ elim (Option-cases (trimmed p.topic_id)) [
      | inl f ↦ rw (e, f, record_inbound_dispatch) (keeps refl)
      | inr (t, f) ↦ elim (Option-cases (trimmed p.agent_id)) [
        | inl g ↦ rw (e, f, g, record_inbound_dispatch) (keeps refl)
        | inr (a, g) ↦ rw (e, f, g, record_inbound_dispatch) (admit-Writes id r t a p)
      ]
    ]
  ]

  running-Writes : (id r : String) → Writes (settled h (mark_dispatch_running k h id r now))
  unfolding mark_dispatch_running append_receipt settled
  running-Writes id r = elim (Option-cases (get r h.dispatches)) [
    | inl e ↦ rw (e, mark_dispatch_running) (keeps refl)
    | inr (d, e) ↦ rw (e, mark_dispatch_running) (adds id r _ refl)
  ]

  replay-Writes : (r : String) (t : ℕ) → Writes (settled h (schedule_dispatch_replay h r t))
  unfolding schedule_dispatch_replay settled
  replay-Writes r t = elim (Option-cases (get r h.dispatches)) [
    | inl e ↦ rw (e, schedule_dispatch_replay) (keeps refl)
    | inr (d, e) ↦ rw (e, schedule_dispatch_replay) (keeps refl)
  ]

  after_reply :
      (xs : List Receipt) (id r : String) (body : Body)
      → xs ≡ h.receipts
      → Written k h.receipts now (xs ++ receipt_after k xs id r body now ∷ [])
  after_reply xs id r body e =
      adds id r body (ap (λ (ys : List Receipt). ys ++ receipt_after k ys id r body now ∷ []) e)

  succeeded-Writes :
      (id box r content : String) (f : ProofFields)
      → Writes (settled h (mark_dispatch_succeeded k h id box r content f now))
  unfolding mark_dispatch_succeeded settled append_receipt
  succeeded-Writes id box r content f = elim (Option-cases (get r h.dispatches)) [
    | inl e ↦ rw (e, mark_dispatch_succeeded) (keeps refl)
    | inr (d, e) ↦
        rw (e, mark_dispatch_succeeded)
          (after_reply _ id r _ (send_reply-IsFramed k h now box r d _).0)
  ]

  failed-Writes :
      (id box r error : String) (f : ProofFields)
      → Writes (settled h (mark_dispatch_failed k h id box r error f now))
  unfolding mark_dispatch_failed settled append_receipt
  failed-Writes id box r error f = elim (Option-cases (get r h.dispatches)) [
    | inl e ↦ rw (e, mark_dispatch_failed) (keeps refl)
    | inr (d, e) ↦
        rw (e, mark_dispatch_failed)
          (after_reply _ id r _ (send_reply-IsFramed k h now box r d _).0)
  ]

  step-Writes : (c : Call) → Writes (step k h (now, c))
  unfolding step upsert_memory get_memory get_cache prune_expired_cache prune_terminal_outbox
      prune_old_receipts
  step-Writes (records id p) = record_inbound-Writes id p
  step-Writes (runs id r) = running-Writes id r
  step-Writes (replays r t) = replay-Writes r t
  step-Writes (succeeds id box r content f) = succeeded-Writes id box r content f
  step-Writes (fails id box r e f) = failed-Writes id box r e f
  step-Writes (delivers id) = keeps (sent-IsFramed k h now id).0
  step-Writes (leases limit lease) = keeps (leases-IsFramed k h now limit lease).0
  step-Writes (misses id e t n) = keeps (misses-IsFramed k h now id e t n).0
  step-Writes (remembers key value ttl) = keeps (upsert-IsFramed k h now key value _ ttl).0
  step-Writes (caches key value ttl) = keeps (cache-IsFramed k h now key value ttl).0
  step-Writes (recalls key) = keeps (get-IsFramed k h now key _).0
  step-Writes (looks_up key) = keeps (get-IsFramed k h now key _).0
  step-Writes prunes_cache = keeps refl
  step-Writes (prunes_outbox before) = keeps refl
  step-Writes (prunes_receipts before) = drops before refl

-- The calls come in the order of their times.
abbrev pub Ticks : ℕ → List (ℕ × Call) → Type 0
Ticks from [] = Unit
Ticks from ((now, c) ∷ cs) = (from ≤ now) × Ticks now cs

abbrev pub end_of : ℕ → List (ℕ × Call) → ℕ
end_of from [] = from
end_of from ((now, c) ∷ cs) = end_of now cs

run-IsLog :
    (k : Crypto) (cs : List (ℕ × Call)) (h : Hub) (from : ℕ)
    → Ticks from cs
    → IsLog k h.receipts from
    → IsLog k (run k h cs).receipts (end_of from cs)
unfolding run
run-IsLog k [] h from t v = v
run-IsLog k ((now, c) ∷ cs) h from t v = run-IsLog k cs (step k h (now, c)) now t.1 (
    Written-IsLog k h.receipts now _ (step-Writes k h now c)
      (IsLog-later k h.receipts from now t.0 v))

-- With a clock that does not run back, and after any calls on a new hub, each receipt has the hash
-- of its own fields, the receipts of a request hold each the hash of the one before it, and all
-- receipts stand in the order of their times.
pub create-run-IsLog :
    (k : Crypto) (agent : String) (cs : List (ℕ × Call))
    → Ticks 0 cs
    → IsLog k (run k (create agent) cs).receipts (end_of 0 cs)
unfolding of_request
create-run-IsLog k agent cs t =
    run-IsLog k cs (create agent) 0 t
      (record { sorted = tt; past = tt; sealed = tt; chained = λ r. tt })
