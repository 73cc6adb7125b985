-- ===== src/Hub.antt =====
-- src/services/AgentHubStore.ts: the edge log of one agent, its tables and its receipts.
--
-- A table is the list of its rows in the order of insertion, the dispatches and the memory by their
-- keys. Columns are the texts that are sealed and opened, without the sealing. What the store takes
-- from Node is `Crypto`: SHA-256, and JSON texts with sorted keys. An operation that throws rolls
-- its transaction back, so its error comes with no new state.
pub mod Outbox
pub mod Runtime
pub mod Memory
pub mod Calls
pub mod Chain
pub mod Frames
pub mod History
pub mod Kept
pub mod Lease
pub mod Rows
pub mod Leased
pub mod Apart
pub mod Once
pub mod Recall
use Prim.Native.Char.{Char, code}
use kovael.Common.{
  ℕ, zero, suc, ◌+◌, String, Bool, true, false, not, ◌&&◌, ◌||◌, Option, none, some, List, [], ◌∷◌,
  ◌++◌, leb, ◌==◌, str_eq, trim, if◌then◌else◌, ◌+++◌, decimal, or_default,
}
use kovael.Table.{Table, get, set}

pub data DispatchStatus : Type 0 where
  accepted running succeeded failed : DispatchStatus

pub data OutboxStatus : Type 0 where
  pending sending sent undelivered dead : OutboxStatus

-- What the body of a dispatch says: a field that is no text is none.
pub record Payload : Type 0 where
  pub request_id : Option String
  pub topic_id : Option String
  pub agent_id : Option String
  pub reply_url : Option String
  pub claim_session_id : Option String
  pub reply_proof_secret : Option String
  pub rest : String

pub record Dispatch : Type 0 where
  pub topic_id : String
  pub agent_id : String
  pub status : DispatchStatus
  pub received_at : ℕ
  pub started_at : Option ℕ
  pub completed_at : Option ℕ
  pub payload : Payload
  pub payload_hash : String
  pub reply_url : Option String
  pub reply_content : Option String
  pub error : Option String
  pub duplicate_count : ℕ
  pub last_seen_at : ℕ
  pub runtime_attempts : ℕ
  pub last_runtime_started_at : Option ℕ
  pub replay_after : Option ℕ

pub record Outbound : Type 0 where
  pub id : String
  pub request_id : String
  pub dedupe_key : String
  pub target_url : String
  pub payload : String
  pub payload_hash : String
  pub status : OutboxStatus
  pub attempts : ℕ
  pub next_attempt_at : Option ℕ
  pub last_error : Option String
  pub created_at : ℕ
  pub updated_at : ℕ
  pub sent_at : Option ℕ

-- The payloads of receipts, with the kind that each has.
pub data Body : Type 0 where
  dispatch_received : String → String → String → String → Body
  runtime_started : String → ℕ → ℕ → Body
  runtime_succeeded : String → ℕ → Option String → String → Body
  runtime_failed : String → ℕ → String → Option String → Body

pub record Receipt : Type 0 where
  pub id : String
  pub request_id : String
  pub body : Body
  pub prev_hash : Option String
  pub receipt_hash : String
  pub created_at : ℕ

pub data MemoryKind : Type 0 where
  memory cache : MemoryKind

pub record Remembered : Type 0 where
  pub value : String
  pub kind : MemoryKind
  pub updated_at : ℕ
  pub created_at : ℕ
  pub expires_at : Option ℕ
  pub last_accessed_at : Option ℕ
  pub access_count : ℕ

pub record Reply : Type 0 where
  pub topic_id : String
  pub agent_id : String
  pub content : String
  pub request_id : String
  pub claim_session_id : Option String
  pub reply_proof : Option String
  pub status : DispatchStatus
  pub error : Option String

pub record Crypto : Type 0 where
  pub sha256 : String → String
  pub payload_json : Payload → String
  pub body_json : Body → String
  pub reply_json : Reply → String
  pub proof : String → String → String → String
  pub redact : String → String

pub record Hub : Type 0 where
  pub agent_id : String
  pub dispatches : Table Dispatch
  pub outbox : List Outbound
  pub receipts : List Receipt
  pub memories : Table Remembered

pub data HubError : Type 0 where
  required : String → HubError
  wrong_hub hash_conflict unknown_dispatch unknown_outbox : HubError
  not_positive : String → HubError

pub data Result (A : Type 0) : Type 0 where
  ok : Hub → A → Result A
  err : HubError → Result A

-- `requiredString` and `stringOrNull`
unfoldable pub trimmed : Option String → Option String
unfolding trim
trimmed none = none
trimmed (some s) = let t = trim s in if str_eq t "" then none else some t

unfoldable pub kind_text : Body → String
kind_text (dispatch_received r t a h) = "dispatch_received"
kind_text (runtime_started r n s) = "runtime_started"
kind_text (runtime_succeeded r s o h) = "runtime_succeeded"
kind_text (runtime_failed r s e o) = "runtime_failed"

-- `ORDER BY created_at DESC, rowid DESC LIMIT 1`: the latest receipt of a request, given the latest
-- one of those before.
unfoldable pub later : Option Receipt → Receipt → Option Receipt
later none x = some x
later (some b) x = if leb b.created_at x.created_at then some x else some b

unfoldable pub latest : String → Option Receipt → List Receipt → Option Receipt
unfolding later
latest request best [] = best
latest request best (x ∷ xs) =
    latest request (if str_eq x.request_id request then later best x else best) xs

unfoldable pub hash_of : Option Receipt → Option String
hash_of none = none
hash_of (some r) = some r.receipt_hash

unfoldable pub receipt_digest : Crypto → Option String → Body → ℕ → String
unfolding kind_text ◌+++◌ decimal
receipt_digest k prev body now = k.sha256 (
    or_default prev ""
    +++ "\n"
    +++ kind_text body
    +++ "\n"
    +++ decimal now
    +++ "\n"
    +++ k.body_json body)

unfoldable pub receipt_after : Crypto → List Receipt → String → String → Body → ℕ → Receipt
unfolding latest hash_of receipt_digest
receipt_after k xs id request body now =
    let prev = hash_of (latest request none xs) in
    record {
      id = id;
      request_id = request;
      body = body;
      prev_hash = prev;
      receipt_hash = receipt_digest k prev body now;
      created_at = now;
    }

unfoldable pub append_receipt : Crypto → Hub → String → String → Body → ℕ → Hub
unfolding receipt_after
append_receipt k h id request body now = record h {
  receipts = h.receipts ++ receipt_after k h.receipts id request body now ∷ [];
}

unfoldable pub persistable : Payload → Payload
persistable p = record p { reply_proof_secret = none }
