-- ===== src/Hub/Calls.antt =====
-- src/services/AgentHubStore.ts: the calls on a hub, one after the other.
use kovael.Common.{ℕ, String, Option, List, [], ◌∷◌}
use kovael.Hub.{Hub, Crypto, Payload, Result, ok, err}
use kovael.Hub.Runtime.{
  ProofFields, record_inbound_dispatch, mark_dispatch_running, schedule_dispatch_replay,
  mark_dispatch_succeeded, mark_dispatch_failed,
}
use kovael.Hub.Outbox.{
  mark_outbox_sent, claim_due_outbox, mark_outbox_delivery_failed, prune_terminal_outbox,
}
use kovael.Hub.Memory.{
  upsert_memory, upsert_cache, get_memory, get_cache, prune_expired_cache, prune_old_receipts,
}

-- The first texts of a call are the identifiers of the rows that it may add.
pub data Call : Type 0 where
  records : String → Payload → Call
  runs : String → String → Call
  replays : String → ℕ → Call
  succeeds fails : String → String → String → String → ProofFields → Call
  delivers : String → Call
  leases : ℕ → ℕ → Call
  misses : String → String → Option ℕ → ℕ → Call
  remembers : String → String → Option ℕ → Call
  caches : String → String → ℕ → Call
  recalls looks_up : String → Call
  prunes_cache : Call
  prunes_outbox prunes_receipts : ℕ → Call

-- A call that throws leaves the hub as it is.
unfoldable pub settled : {A : Type 0} → Hub → Result A → Hub
settled h (ok h' a) = h'
settled h (err e) = h

unfoldable pub step : Crypto → Hub → ℕ × Call → Hub
unfolding settled record_inbound_dispatch mark_dispatch_running schedule_dispatch_replay
    mark_dispatch_succeeded mark_dispatch_failed mark_outbox_sent claim_due_outbox
    mark_outbox_delivery_failed upsert_memory upsert_cache get_memory get_cache prune_expired_cache
    prune_terminal_outbox prune_old_receipts
step k h (now, records id p) = settled h (record_inbound_dispatch k h id p now)
step k h (now, runs id r) = settled h (mark_dispatch_running k h id r now)
step k h (now, replays r t) = settled h (schedule_dispatch_replay h r t)
step k h (now, succeeds id box r content f) =
    settled h (mark_dispatch_succeeded k h id box r content f now)
step k h (now, fails id box r e f) = settled h (mark_dispatch_failed k h id box r e f now)
step k h (now, delivers id) = settled h (mark_outbox_sent h id now)
step k h (now, leases limit lease) = settled h (claim_due_outbox h limit lease now)
step k h (now, misses id e t n) = settled h (mark_outbox_delivery_failed k h id e t n now)
step k h (now, remembers key value ttl) = settled h (upsert_memory h key value ttl now)
step k h (now, caches key value ttl) = settled h (upsert_cache h key value ttl now)
step k h (now, recalls key) = (get_memory h key now).0
step k h (now, looks_up key) = (get_cache h key now).0
step k h (now, prunes_cache) = prune_expired_cache h now
step k h (now, prunes_outbox before) = prune_terminal_outbox h before
step k h (now, prunes_receipts before) = prune_old_receipts h before

unfoldable pub run : Crypto → Hub → List (ℕ × Call) → Hub
unfolding step
run k h [] = h
run k h (c ∷ cs) = run k (step k h c) cs

abbrev pub create : String → Hub
create agent = record {
  agent_id = agent;
  dispatches = [];
  outbox = [];
  receipts = [];
  memories = [];
}
