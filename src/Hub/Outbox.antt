-- ===== src/Hub/Outbox.antt =====
-- src/services/AgentHubStore.ts: the replies that wait to be delivered.
use kovael.Common.{
  ℕ, ◌+◌, String, Bool, true, false, ◌&&◌, ◌||◌, Option, none, some, List, [], ◌∷◌, leb, ltb, ◌==◌,
  str_eq, if◌then◌else◌, ◌+++◌, or_default, take,
}
use kovael.Dispatches.{contains}
use kovael.Hub.{
  OutboxStatus, pending, sending, sent, undelivered, dead, Outbound, Crypto, Hub, unknown_outbox,
  not_positive, Result, ok, err, Reply,
}

unfoldable pub same : OutboxStatus → OutboxStatus → Bool
same pending pending = true
same sending sending = true
same sent sent = true
same undelivered undelivered = true
same dead dead = true
same _ _ = false

unfoldable pub reply_key : String → String
unfolding ◌+++◌
reply_key request = "reply:" +++ request

unfoldable pub new_reply : Crypto → String → String → String → Reply → ℕ → Outbound
unfolding reply_key
new_reply k id request url reply now = record {
  id = id;
  request_id = request;
  dedupe_key = reply_key request;
  target_url = url;
  payload = k.reply_json reply;
  payload_hash = k.sha256 (k.reply_json reply);
  status = pending;
  attempts = 0;
  next_attempt_at = none;
  last_error = none;
  created_at = now;
  updated_at = now;
  sent_at = none;
}

-- `ON CONFLICT(dedupe_key) DO UPDATE`: a reply that was sent stays as it is.
unfoldable pub replaced : Outbound → Outbound → Outbound
unfolding same
replaced old new = if same old.status sent then old else record old {
  target_url = new.target_url;
  payload = new.payload;
  payload_hash = new.payload_hash;
  status = pending;
  attempts = 0;
  next_attempt_at = none;
  updated_at = new.updated_at;
  last_error = none;
}

unfoldable pub upsert : Outbound → List Outbound → List Outbound
unfolding replaced
upsert new [] = new ∷ []
upsert new (x ∷ xs) =
    let rest = upsert new xs in
    if str_eq x.dedupe_key new.dedupe_key then replaced x new ∷ xs else x ∷ rest

unfoldable pub upsert_reply :
    Crypto → List Outbound → String → String → String → Reply → ℕ → List Outbound
unfolding upsert new_reply
upsert_reply k box id request url reply now = upsert (new_reply k id request url reply now) box

-- `SELECT id … WHERE dedupe_key = ?`
unfoldable pub id_of_reply : String → List Outbound → Option String
unfolding reply_key
id_of_reply request [] = none
id_of_reply request (x ∷ xs) =
    let rest = id_of_reply request xs in
    if str_eq x.dedupe_key (reply_key request) then some x.id else rest

unfoldable pub find_row : String → List Outbound → Option Outbound
find_row id [] = none
find_row id (x ∷ xs) = let rest = find_row id xs in if str_eq x.id id then some x else rest

-- `UPDATE … WHERE id = ?`
unfoldable pub update_row : String → (Outbound → Outbound) → List Outbound → List Outbound
update_row id f [] = []
update_row id f (x ∷ xs) =
    let rest = update_row id f xs in if str_eq x.id id then f x ∷ rest else x ∷ rest

unfoldable pub delivered : ℕ → Outbound → Outbound
delivered now x = record x {
  status = sent;
  sent_at = some now;
  updated_at = now;
  last_error = none;
}

unfoldable pub mark_outbox_sent : Hub → String → ℕ → Result (Unit {0})
unfolding find_row same update_row delivered
mark_outbox_sent h id now = elim (find_row id h.outbox) [
  | none ↦ err unknown_outbox
  | some x ↦
      if same x.status sent
      then ok h tt
      else ok (record h { outbox = update_row id (delivered now) h.outbox }) tt
]

unfoldable pub is_after : Option ℕ → ℕ → Bool
is_after none now = true
is_after (some t) now = leb t now

-- Rows whose time has come, and those whose lease is over: `updated_at <= stamp - leaseMs`.
unfoldable pub is_due : ℕ → ℕ → Outbound → Bool
unfolding same is_after
is_due now lease x =
    ((same x.status pending || same x.status undelivered) && is_after x.next_attempt_at now)
    || (same x.status sending && leb (x.updated_at + lease) now)

unfoldable pub due_rows : ℕ → ℕ → List Outbound → List Outbound
unfolding is_due
due_rows now lease [] = []
due_rows now lease (x ∷ xs) =
    let rest = due_rows now lease xs in if is_due now lease x then x ∷ rest else rest

unfoldable pub due_at : Outbound → ℕ
due_at x = or_default x.next_attempt_at x.created_at

unfoldable pub by_due : Outbound → Outbound → Bool
unfolding due_at
by_due x y = ltb (due_at x) (due_at y) || (due_at x == due_at y && ltb x.created_at y.created_at)

unfoldable pub by_creation : Outbound → Outbound → Bool
by_creation x y = ltb x.created_at y.created_at

-- `ORDER BY`, rows that agree in the order of insertion.
unfoldable pub insert_row : (Outbound → Outbound → Bool) → Outbound → List Outbound → List Outbound
insert_row less x [] = x ∷ []
insert_row less x (y ∷ ys) =
    let rest = insert_row less x ys in if less y x then y ∷ rest else x ∷ y ∷ ys

unfoldable pub order_rows : (Outbound → Outbound → Bool) → List Outbound → List Outbound
unfolding insert_row
order_rows less [] = []
order_rows less (x ∷ xs) = insert_row less x (order_rows less xs)

unfoldable pub ids : List Outbound → List String
ids [] = []
ids (x ∷ xs) = x.id ∷ ids xs

unfoldable pub leased : ℕ → Outbound → Outbound
leased now x = record x {
  status = sending;
  attempts = x.attempts + 1;
  next_attempt_at = none;
  updated_at = now;
}

unfoldable pub lease_rows : ℕ → List String → List Outbound → List Outbound
unfolding leased contains
lease_rows now chosen [] = []
lease_rows now chosen (x ∷ xs) =
    (if contains x.id chosen then leased now x else x) ∷ lease_rows now chosen xs

-- `WHERE id IN (…)`
unfoldable pub rows_in : List String → List Outbound → List Outbound
unfolding contains
rows_in chosen [] = []
rows_in chosen (x ∷ xs) =
    let rest = rows_in chosen xs in if contains x.id chosen then x ∷ rest else rest

unfoldable pub chosen_ids : ℕ → ℕ → ℕ → List Outbound → List String
unfolding due_rows order_rows by_due ids take
chosen_ids now limit lease box = ids (take limit (order_rows by_due (due_rows now lease box)))

unfoldable pub claim_due_outbox : Hub → ℕ → ℕ → ℕ → Result (List Outbound)
unfolding chosen_ids lease_rows rows_in order_rows by_creation
claim_due_outbox h limit lease now =
    if limit == 0
    then err (not_positive "limit")
    else if lease == 0
    then err (not_positive "leaseMs")
    else let chosen = chosen_ids now limit lease h.outbox in
      let box = lease_rows now chosen h.outbox in
      ok (record h { outbox = box }) (order_rows by_creation (rows_in chosen box))

-- No time for a retry, or no attempt left: the row is dead.
unfoldable pub refused : Option ℕ → Bool → Outbound → Outbound
refused none exhausted x = record x { status = dead; next_attempt_at = none }
refused (some t) exhausted x =
    if exhausted
    then record x { status = dead; next_attempt_at = none }
    else record x { status = undelivered; next_attempt_at = some t }

unfoldable pub mark_outbox_delivery_failed :
    Crypto → Hub → String → String → Option ℕ → ℕ → ℕ → Result (Unit {0})
unfolding find_row update_row refused
mark_outbox_delivery_failed k h id error retry_at max_attempts now =
    if max_attempts == 0 then err (not_positive "maxAttempts") else elim (find_row id h.outbox) [
      | none ↦ err unknown_outbox
      | some x ↦
          ok
            (record h {
              outbox =
                  update_row id
                    (λ y. record (refused retry_at (leb max_attempts x.attempts) y) {
                      last_error = some (k.redact error);
                      updated_at = now;
                    })
                    h.outbox;
            })
            tt
    ]

-- `DELETE … WHERE status IN ('sent', 'dead') AND updated_at < ?`
unfoldable pub prune_rows : ℕ → List Outbound → List Outbound
unfolding same
prune_rows before [] = []
prune_rows before (x ∷ xs) =
    let rest = prune_rows before xs in
    if (same x.status sent || same x.status dead) && ltb x.updated_at before then rest else x ∷ rest

unfoldable pub prune_terminal_outbox : Hub → ℕ → Hub
unfolding prune_rows
prune_terminal_outbox h before = record h { outbox = prune_rows before h.outbox }
