-- ===== src/Hub/Frames.antt =====
-- src/services/AgentHubStore.ts: what calls on the outbox and the memory leave alone.
use kovael.Common.{ℕ, ◌≡◌, String, Option, arith}
use kovael.Hub.{Hub, MemoryKind, Crypto, Dispatch, Reply}
use kovael.Hub.Memory.{get_memory_value, upsert_memory_value, upsert_cache}
use kovael.Hub.Runtime.{send_reply}
use kovael.Hub.Outbox.{mark_outbox_sent, claim_due_outbox, mark_outbox_delivery_failed}
use kovael.Hub.Calls.{settled}

-- The receipts and the dispatches are as they were.
abbrev pub IsFramed : Hub → Hub → Type 0
IsFramed h h' = (h'.receipts ≡ h.receipts) × (h'.dispatches ≡ h.dispatches)

module _ (k : Crypto) (h : Hub) (now : ℕ) where
  pub send_reply-IsFramed :
      (id r : String) (d : Dispatch) (reply : Reply)
      → IsFramed h (send_reply k h id r d reply now).0
  unfolding send_reply
  send_reply-IsFramed id r d reply = (ground arith, ground arith)

  pub sent-IsFramed : (id : String) → IsFramed h (settled h (mark_outbox_sent h id now))
  unfolding mark_outbox_sent settled
  sent-IsFramed id = (ground arith, ground arith)

  pub leases-IsFramed :
      (limit lease : ℕ) → IsFramed h (settled h (claim_due_outbox h limit lease now))
  unfolding claim_due_outbox settled
  leases-IsFramed limit lease = (ground arith, ground arith)

  pub misses-IsFramed :
      (id error : String) (t : Option ℕ) (n : ℕ)
      → IsFramed h (settled h (mark_outbox_delivery_failed k h id error t n now))
  unfolding mark_outbox_delivery_failed settled
  misses-IsFramed id error t n = (ground arith, ground arith)

  pub upsert-IsFramed :
      (key value : String) (kind : MemoryKind) (ttl : Option ℕ)
      → IsFramed h (settled h (upsert_memory_value h key value kind ttl now))
  unfolding upsert_memory_value settled
  upsert-IsFramed key value kind ttl = (ground arith, ground arith)

  pub cache-IsFramed :
      (key value : String) (ttl : ℕ) → IsFramed h (settled h (upsert_cache h key value ttl now))
  unfolding upsert_cache upsert_memory_value settled
  cache-IsFramed key value ttl = (ground arith, ground arith)

  pub get-IsFramed :
      (key : String) (kind : MemoryKind) → IsFramed h (get_memory_value h key kind now).0
  unfolding get_memory_value
  get-IsFramed key kind = (ground arith, ground arith)
