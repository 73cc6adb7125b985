-- ===== src/Examples/HubRuns.antt =====
-- src/services/AgentHubStore.ts: a dispatch that is recorded, run and answered, twice delivered.
use kovael.Common.{
  ℕ, String, false, ◌≡◌, refl, Option, none, some, List, [], ◌∷◌, map, arith, trim, ap,
  after_prefix, after_prefix-append, ◌+++◌,
}
use kovael.Table.{get, set}
use kovael.Dispatches.{contains}
use kovael.Hub.{Hub, Crypto, Payload, Receipt, cache, trimmed}
use kovael.Hub.Runtime.{ProofFields, record_inbound_dispatch}
use kovael.Hub.Outbox.{claim_due_outbox, ids}
use kovael.Hub.Memory.{get_memory_value, upsert_memory_value, same_kind, is_expired, expiry}
use kovael.Hub.Calls.{leases, misses, Call, records, runs, succeeds, run, create, settled, step}
use kovael.Hub.Chain.{IsLog}
use kovael.Hub.History.{create-run-IsLog}
use kovael.Hub.Leased.{claimed}
use kovael.Hub.Lease.{claim_due_outbox-exclusive}
use kovael.Hub.Once.{Answers, record_inbound_dispatch-once}
use kovael.Hub.Recall.{get_memory_value-upsert}

-- A digest for the runs: the text with a mark before it.
crypto : Crypto
unfolding ◌+++◌
crypto = record {
  sha256 = λ s. "#" +++ s;
  payload_json = λ p. p.rest;
  body_json = λ b. "{}";
  reply_json = λ r. r.content;
  proof = λ r s k. "";
  redact = λ s. s;
}

abbrev payload : String → Payload
payload text = record {
  request_id = some " q1 ";
  topic_id = some "t1";
  agent_id = some "shaev";
  reply_url = some "http://localhost/reply";
  claim_session_id = none;
  reply_proof_secret = none;
  rest = text;
}

abbrev no_proof : ProofFields
no_proof = record { claim_session_id = none; reply_proof_secret = none }

abbrev calls : List (ℕ × Call)
calls =
    (10, records "r1" (payload "bake"))
    ∷ (20, runs "r2" "q1")
    ∷ (30, succeeds "r3" "o1" "q1" "done" no_proof)
    ∷ []

abbrev prev_hashes : Hub → List (Option String)
prev_hashes h = map (λ (x : Receipt). x.prev_hash) h.receipts

hub : Hub
unfolding run step crypto
hub = run crypto (create "shaev") calls

is_trimmed : trim " q1 " ≡ "q1"
unfolding trim
is_trimmed = refl

create-run-IsLog_example : IsLog crypto hub.receipts 30
unfolding hub
create-run-IsLog_example =
    create-run-IsLog crypto "shaev" calls (omega arith, (omega arith, (omega arith, tt)))

first_leased : ids (claimed (claim_due_outbox hub 5 100 40)) ≡ "o1" ∷ []
unfolding hub claim_due_outbox ids get set
first_leased = refl

-- Meanwhile another worker takes a lease, a failed delivery of another row is reported, and a
-- request runs.
abbrev meanwhile : List (ℕ × Call)
meanwhile = (50, leases 5 100) ∷ (60, misses "o2" "refused" none 3) ∷ (70, runs "r2" "q7") ∷ []

claim_due_outbox-exclusive_example :
    contains "o1" (
      ids (
        claimed (
          claim_due_outbox
            (run crypto (settled hub (claim_due_outbox hub 5 100 40)) meanwhile)
            5
            100
            139)))
    ≡ false
unfolding hub claim_due_outbox ids contains get set
claim_due_outbox-exclusive_example =
    claim_due_outbox-exclusive crypto hub 5 100 5 100 40 139 "o1" "reply:q1" meanwhile refl refl
      (omega arith, (refl, (tt, tt))) (omega arith)

abbrev later_hub : Hub
later_hub =
    run crypto
      (settled (create "shaev")
        (record_inbound_dispatch crypto (create "shaev") "r1" (payload "bake") 10))
      ((20, runs "r2" "q1") ∷ [])

crypto-apart : (a b : String) → crypto.sha256 a ≡ crypto.sha256 b → a ≡ b
unfolding crypto
crypto-apart a b e =
    let p = ap (after_prefix "#") e in
    let q = after_prefix-append "#" a in let r = after_prefix-append "#" b in cc

record_inbound_dispatch-once_example :
    Answers false later_hub (record_inbound_dispatch crypto later_hub "r9" (payload "burn") 50)
unfolding crypto trimmed get run set
record_inbound_dispatch-once_example =
    record_inbound_dispatch-once crypto (create "shaev") "r1" "r9" "q1" (payload "bake")
      (payload "burn") 10 50 ((20, runs "r2" "q1") ∷ []) crypto-apart
      (record { topic = "t1"; requested = refl; discussed = refl; addressed = refl }) refl refl
      (record { topic = "t1"; requested = refl; discussed = refl; addressed = refl })

get_memory_value-upsert_example :
    (get_memory_value
      (settled hub (upsert_memory_value hub " k " "v" cache (some 5) 60))
      "k"
      cache
      64).1
    ≡ some "v"
unfolding trimmed same_kind is_expired expiry
get_memory_value-upsert_example =
    get_memory_value-upsert hub " k " "k" "k" "v" cache cache (some 5) 60 64 refl
