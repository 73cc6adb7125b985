-- ===== src/Hub/Apart.antt =====
-- src/services/AgentHubStore.ts: the calls that leave a leased row alone.
use kovael.Common.{
  All, Option, some, Option-cases, ℕ, ◌+◌, ◌<◌, ◌≡◌, ap, ◌∙◌, String, Bool, true, false, List, [],
  ◌∷◌, arith, ◌==◌, leb, Bool-cases, inl, inr, str_eq,
}
use kovael.Hub.{Hub, Outbound, Payload, Dispatch, Reply, MemoryKind, append_receipt, Crypto}
use kovael.Hub.Outbox.{
  find_row, claim_due_outbox, chosen_ids, refused, reply_key, new_reply, upsert_reply,
  mark_outbox_sent, mark_outbox_delivery_failed, prune_terminal_outbox,
}
use kovael.Hub.Calls.{
  settled, Call, records, runs, replays, succeeds, fails, delivers, leases, misses, remembers,
  caches, recalls, looks_up, prunes_cache, prunes_outbox, prunes_receipts, step, run,
}
use kovael.Table.{get}
use kovael.Hub.Runtime.{
  ProofFields, record_inbound_dispatch, mark_dispatch_running, schedule_dispatch_replay,
  mark_dispatch_succeeded, mark_dispatch_failed, send_reply, admit, seen_again, first_seen,
}
use kovael.Hub.Memory.{
  upsert_memory, upsert_cache, upsert_memory_value, get_memory, get_cache, get_memory_value,
  prune_expired_cache, prune_old_receipts,
}
use kovael.Hub.Leased.{
  all_out, out-chosen, lease-others, delivered-out, update-out, prune-out, upsert-out,
}

-- A call that leaves alone the row that is leased since a time: it reports no failed delivery of it,
-- writes no reply over it, and claims no rows after the lease, by its own length, is over.
abbrev pub IsApart : String → String → ℕ → ℕ × Call → Type 0
IsApart id key at (now, misses j e t n) = str_eq j id ≡ false
IsApart id key at (now, leases limit lease) = now < at + lease
IsApart id key at (now, succeeds i box r c f) =
    (str_eq box id ≡ false) × (str_eq key (reply_key r) ≡ false)
IsApart id key at (now, fails i box r c f) =
    (str_eq box id ≡ false) × (str_eq key (reply_key r) ≡ false)
IsApart id key at (now, _) = Unit

module _ (k : Crypto) (h : Hub) (now : ℕ) where
  records-outbox :
      (id : String) (p : Payload)
      → (settled h (record_inbound_dispatch k h id p now)).outbox ≡ h.outbox
  unfolding record_inbound_dispatch admit seen_again first_seen append_receipt settled
  records-outbox id p = ground arith

  runs-outbox : (id r : String) → (settled h (mark_dispatch_running k h id r now)).outbox ≡ h.outbox
  unfolding mark_dispatch_running append_receipt settled
  runs-outbox id r = ground arith

  replays-outbox :
      (r : String) (t : ℕ) → (settled h (schedule_dispatch_replay h r t)).outbox ≡ h.outbox
  unfolding schedule_dispatch_replay settled
  replays-outbox r t = ground arith

  upsert-outbox :
      (key value : String) (kind : MemoryKind) (ttl : Option ℕ)
      → (settled h (upsert_memory_value h key value kind ttl now)).outbox ≡ h.outbox
  unfolding upsert_memory_value settled
  upsert-outbox key value kind ttl = ground arith

  cache-outbox :
      (key value : String) (ttl : ℕ)
      → (settled h (upsert_cache h key value ttl now)).outbox ≡ h.outbox
  unfolding upsert_cache upsert_memory_value settled
  cache-outbox key value ttl = ground arith

  get-outbox :
      (key : String) (kind : MemoryKind) → (get_memory_value h key kind now).0.outbox ≡ h.outbox
  unfolding get_memory_value
  get-outbox key kind = ground arith

same-out :
    {box box' : List Outbound} (id key : String) (at : ℕ)
    → box' ≡ box
    → all_out id key at box ≡ true
    → all_out id key at box' ≡ true
same-out id key at e v = ap (all_out id key at) e ∙ v

module _ (k : Crypto) (id key : String) (at : ℕ) (h : Hub) (now : ℕ) where
  delivers-out :
      (j : String)
      → all_out id key at h.outbox ≡ true
      → all_out id key at (settled h (mark_outbox_sent h j now)).outbox ≡ true
  unfolding mark_outbox_sent settled
  delivers-out j v = ground (arith, delivered-out id key at j now h.outbox v)

  leases-out :
      (limit lease : ℕ)
      → now < at + lease
      → all_out id key at h.outbox ≡ true
      → all_out id key at (settled h (claim_due_outbox h limit lease now)).outbox ≡ true
  unfolding claim_due_outbox settled
  leases-out limit lease l v =
      let chosen = chosen_ids now limit lease h.outbox in
      let apart = out-chosen id key at now limit lease h.outbox l v in
      ground (arith, lease-others id key at now chosen h.outbox apart v)

  misses-out :
      (j e : String) (t : Option ℕ) (n : ℕ)
      → str_eq j id ≡ false
      → all_out id key at h.outbox ≡ true
      → all_out id key at (settled h (mark_outbox_delivery_failed k h j e t n now)).outbox ≡ true
  unfolding mark_outbox_delivery_failed settled
  misses-out j e t n a v = elim (Bool-cases (n == 0)) [
    | inl z ↦ rw (z) v
    | inr z ↦ elim (Option-cases (find_row j h.outbox)) [
      | inl f ↦ rw (z, f) v
      | inr (x, f) ↦
          rw (z, f) (update-out id key at j _ h.outbox a (missed-id t (leb n x.attempts)) v)
    ]
  ]
    where
      missed-id :
          (t : Option ℕ) (b : Bool) (y : Outbound)
          → (record (refused t b y) { last_error = some (k.redact e); updated_at = now }).id ≡ y.id
      missed-id t b y = ground arith

  send_reply-out :
      (box r : String) (d : Dispatch) (reply : Reply)
      → str_eq box id ≡ false
      → str_eq key (reply_key r) ≡ false
      → all_out id key at h.outbox ≡ true
      → all_out id key at (send_reply k h box r d reply now).0.outbox ≡ true
  unfolding send_reply upsert_reply new_reply
  send_reply-out box r d reply a b v = elim (Option-cases d.reply_url) [
    | inl e ↦ rw (e, send_reply) v
    | inr (url, e) ↦
        rw (e, send_reply) (upsert-out id key at (new_reply k box r url reply now) h.outbox a b v)
  ]

  succeeds-out :
      (i box r content : String) (f : ProofFields)
      → str_eq box id ≡ false
      → str_eq key (reply_key r) ≡ false
      → all_out id key at h.outbox ≡ true
      → all_out id key at (settled h (mark_dispatch_succeeded k h i box r content f now)).outbox
        ≡ true
  unfolding mark_dispatch_succeeded append_receipt settled
  succeeds-out i box r content f a b v = elim (Option-cases (get r h.dispatches)) [
    | inl e ↦ rw (e, mark_dispatch_succeeded) v
    | inr (d, e) ↦ rw (e, mark_dispatch_succeeded) (send_reply-out box r d _ a b v)
  ]

  fails-out :
      (i box r error : String) (f : ProofFields)
      → str_eq box id ≡ false
      → str_eq key (reply_key r) ≡ false
      → all_out id key at h.outbox ≡ true
      → all_out id key at (settled h (mark_dispatch_failed k h i box r error f now)).outbox ≡ true
  unfolding mark_dispatch_failed append_receipt settled
  fails-out i box r error f a b v = elim (Option-cases (get r h.dispatches)) [
    | inl e ↦ rw (e, mark_dispatch_failed) v
    | inr (d, e) ↦ rw (e, mark_dispatch_failed) (send_reply-out box r d _ a b v)
  ]

step-out :
    (k : Crypto) (id key : String) (at : ℕ) (h : Hub) (now : ℕ) (c : Call)
    → IsApart id key at (now, c)
    → all_out id key at h.outbox ≡ true
    → all_out id key at (step k h (now, c)).outbox ≡ true
unfolding step upsert_memory get_memory get_cache prune_expired_cache prune_terminal_outbox
    prune_old_receipts
step-out k id key at h now (records i p) a v = same-out id key at (records-outbox k h now i p) v
step-out k id key at h now (runs i r) a v = same-out id key at (runs-outbox k h now i r) v
step-out k id key at h now (replays r t) a v = same-out id key at (replays-outbox k h now r t) v
step-out k id key at h now (succeeds i box r c f) a v =
    succeeds-out k id key at h now i box r c f a.0 a.1 v
step-out k id key at h now (fails i box r c f) a v =
    fails-out k id key at h now i box r c f a.0 a.1 v
step-out k id key at h now (delivers j) a v = delivers-out k id key at h now j v
step-out k id key at h now (leases limit lease) a v = leases-out k id key at h now limit lease a v
step-out k id key at h now (misses j e t n) a v = misses-out k id key at h now j e t n a v
step-out k id key at h now (remembers name value ttl) a v =
    same-out id key at (upsert-outbox k h now name value _ ttl) v
step-out k id key at h now (caches name value ttl) a v =
    same-out id key at (cache-outbox k h now name value ttl) v
step-out k id key at h now (recalls name) a v = same-out id key at (get-outbox k h now name _) v
step-out k id key at h now (looks_up name) a v = same-out id key at (get-outbox k h now name _) v
step-out k id key at h now prunes_cache a v = v
step-out k id key at h now (prunes_outbox before) a v = prune-out id key at before h.outbox v
step-out k id key at h now (prunes_receipts before) a v = v

pub run-out :
    (k : Crypto) (id key : String) (at : ℕ) (cs : List (ℕ × Call)) (h : Hub)
    → All (IsApart id key at) cs
    → all_out id key at h.outbox ≡ true
    → all_out id key at (run k h cs).outbox ≡ true
unfolding run
run-out k id key at [] h a v = v
run-out k id key at ((now, c) ∷ cs) h a v =
    run-out k id key at cs (step k h (now, c)) a.1 (step-out k id key at h now c a.0 v)
