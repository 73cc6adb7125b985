-- ===== src/Hub/Runtime.antt =====
-- src/services/AgentHubStore.ts: a dispatch from its arrival to its end.
--
-- The identifiers of new rows are arguments.
use kovael.Common.{
  ℕ, ◌+◌, String, Bool, true, false, not, ◌&&◌, Option, none, some, str_eq, if◌then◌else◌,
  or_default,
}
use kovael.Table.{get, set}
use kovael.Hub.{
  DispatchStatus, accepted, running, succeeded, failed, Payload, Dispatch, dispatch_received,
  runtime_started, runtime_succeeded, runtime_failed, Crypto, Hub, required, wrong_hub,
  hash_conflict, unknown_dispatch, Result, ok, err, trimmed, append_receipt, persistable, Reply,
}
use kovael.Hub.Outbox.{upsert_reply, id_of_reply}

pub record Inserted : Type 0 where
  pub request_id : String
  pub duplicate : Bool
  pub payload_hash : String

unfoldable pub fresh_dispatch : Crypto → String → String → Payload → ℕ → Dispatch
unfolding persistable trimmed
fresh_dispatch k topic agent p now = record {
  topic_id = topic;
  agent_id = agent;
  status = accepted;
  received_at = now;
  started_at = none;
  completed_at = none;
  payload = persistable p;
  payload_hash = k.sha256 (k.payload_json p);
  reply_url = trimmed p.reply_url;
  reply_content = none;
  error = none;
  duplicate_count = 0;
  last_seen_at = now;
  runtime_attempts = 0;
  last_runtime_started_at = none;
  replay_after = none;
}

-- The request is in the table.
unfoldable pub seen_again : Hub → String → Dispatch → String → ℕ → Result Inserted
seen_again h r d hash now =
    if not (str_eq d.payload_hash "") && not (str_eq d.payload_hash hash)
    then err hash_conflict
    else ok
        (record h {
          dispatches =
              set r (record d { duplicate_count = d.duplicate_count + 1; last_seen_at = now })
                h.dispatches;
        })
        (record { request_id = r; duplicate = true; payload_hash = hash })

unfoldable pub first_seen :
    Crypto → Hub → String → String → String → String → Payload → ℕ → Result Inserted
unfolding fresh_dispatch append_receipt
first_seen k h id r topic agent p now =
    let hash = k.sha256 (k.payload_json p) in
    ok
      (append_receipt k
        (record h { dispatches = set r (fresh_dispatch k topic agent p now) h.dispatches }) id r
        (dispatch_received r topic agent hash) now)
      (record { request_id = r; duplicate = false; payload_hash = hash })

unfoldable pub admit :
    Crypto → Hub → String → String → String → String → Payload → ℕ → Result Inserted
unfolding seen_again first_seen
admit k h id r topic agent p now =
    if not (str_eq agent h.agent_id) then err wrong_hub else elim (get r h.dispatches) [
      | some d ↦ seen_again h r d (k.sha256 (k.payload_json p)) now
      | none ↦ first_seen k h id r topic agent p now
    ]

unfoldable pub record_inbound_dispatch : Crypto → Hub → String → Payload → ℕ → Result Inserted
unfolding trimmed admit
record_inbound_dispatch k h id p now = elim (trimmed p.request_id) [
  | none ↦ err (required "requestId")
  | some r ↦ elim (trimmed p.topic_id) [
    | none ↦ err (required "topicId")
    | some topic ↦ elim (trimmed p.agent_id) [
      | none ↦ err (required "agentId")
      | some agent ↦ admit k h id r topic agent p now
    ]
  ]
]

unfoldable pub started_dispatch : Dispatch → ℕ → Dispatch
started_dispatch d now = record d {
  status = running;
  started_at = some (or_default d.started_at now);
  runtime_attempts = d.runtime_attempts + 1;
  last_runtime_started_at = some now;
  replay_after = none;
  error = none;
}

unfoldable pub mark_dispatch_running : Crypto → Hub → String → String → ℕ → Result (Unit {0})
unfolding started_dispatch append_receipt
mark_dispatch_running k h id r now = elim (get r h.dispatches) [
  | none ↦ err unknown_dispatch
  | some d ↦
      ok
        (append_receipt k (record h { dispatches = set r (started_dispatch d now) h.dispatches }) id
          r (runtime_started r (d.runtime_attempts + 1) now) now)
        tt
]

unfoldable pub schedule_dispatch_replay : Hub → String → ℕ → Result (Unit {0})
schedule_dispatch_replay h r replay_after = elim (get r h.dispatches) [
  | none ↦ err unknown_dispatch
  | some d ↦
      ok
        (record h {
          dispatches = set r (record d { replay_after = some replay_after }) h.dispatches;
        })
        tt
]

unfoldable pub first_of : Option String → Option String → Option String
first_of none o = o
first_of (some s) o = some s

pub record ProofFields : Type 0 where
  pub claim_session_id : Option String
  pub reply_proof_secret : Option String

-- A proof needs a session and a secret.
unfoldable pub reply_proof : Crypto → String → Option String → Option String → Option String
reply_proof k r none secret = none
reply_proof k r (some session) none = none
reply_proof k r (some session) (some secret) = some (k.proof r session secret)

unfoldable pub reply_of :
    Crypto → Dispatch → String → String → DispatchStatus → Option String → ProofFields → Reply
unfolding first_of trimmed reply_proof
reply_of k d r content status error f =
    let session = first_of (trimmed f.claim_session_id) (trimmed d.payload.claim_session_id) in
    let secret = first_of (trimmed f.reply_proof_secret) (trimmed d.payload.reply_proof_secret) in
    record {
      topic_id = d.topic_id;
      agent_id = d.agent_id;
      content = content;
      request_id = r;
      claim_session_id = session;
      reply_proof = reply_proof k r session secret;
      status = status;
      error = error;
    }

-- `if (dispatch.reply_url)`: the reply goes to the outbox.
unfoldable pub send_reply :
    Crypto → Hub → String → String → Dispatch → Reply → ℕ → Hub × Option String
unfolding upsert_reply id_of_reply
send_reply k h id r d reply now = elim d.reply_url [
  | none ↦ (h, none)
  | some url ↦
      let box = upsert_reply k h.outbox id r url reply now in
      (record h { outbox = box }, id_of_reply r box)
]

unfoldable pub mark_dispatch_succeeded :
    Crypto → Hub → String → String → String → String → ProofFields → ℕ → Result (Option String)
unfolding reply_of send_reply append_receipt
mark_dispatch_succeeded k h id box_id r content f now = elim (get r h.dispatches) [
  | none ↦ err unknown_dispatch
  | some d ↦
      let (h', outbox_id) =
        send_reply k h box_id r d (reply_of k d r content succeeded none f) now in
      let d' = record d {
        status = succeeded;
        completed_at = some now;
        reply_content = some content;
        replay_after = none;
        error = none;
      } in
      ok
        (append_receipt k (record h' { dispatches = set r d' h'.dispatches }) id r
          (runtime_succeeded r now outbox_id (k.sha256 content)) now)
        outbox_id
]

unfoldable pub mark_dispatch_failed :
    Crypto → Hub → String → String → String → String → ProofFields → ℕ → Result (Option String)
unfolding reply_of send_reply append_receipt
mark_dispatch_failed k h id box_id r error f now = elim (get r h.dispatches) [
  | none ↦ err unknown_dispatch
  | some d ↦
      let e = k.redact error in
      let (h', outbox_id) = send_reply k h box_id r d (reply_of k d r e failed (some e) f) now in
      let d' = record d { status = failed; completed_at = some now; error = some e } in
      ok
        (append_receipt k (record h' { dispatches = set r d' h'.dispatches }) id r
          (runtime_failed r now e outbox_id) now)
        outbox_id
]
