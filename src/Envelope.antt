-- ===== src/Envelope.antt =====
-- src/services/ChairDispatchSecurity.ts: dispatches to chairs in encrypted envelopes, and the proofs
-- of their replies.
--
-- What Node gives is `Cipher`: the key of a secret, the sealing of a text with the data that it
-- authenticates, which vectors and tags it takes, its opening, JSON texts, and digests. Base64 is part
-- of it. A field of a received body is none where it has not the type that is asked for, and times are
-- whole milliseconds since 1970.
pub mod Opening
use kovael.Common.{
  ℕ, ◌+◌, ◌-◌, String, Bool, true, false, not, ◌&&◌, ◌||◌, Option, none, some, leb, ltb, str_eq,
  trim, units, if◌then◌else◌, ◌+++◌, decimal,
}

pub data Parsed (P : Type 0) : Type 0 where
  object : P → Parsed P
  no_object malformed : Parsed P

pub record Cipher (P : Type 0) : Type 0 where
  pub key_for : String → String
  pub encrypt : String → String → String → String → String
  pub tag_of : String → String → String → String → String
  pub accepts_iv : String → Bool
  pub accepts_tag : String → Bool
  pub decrypt : String → String → String → String → String → Option String
  pub print : P → String
  pub parse : String → Parsed P
  pub hmac : String → String → String
  pub from_hex : String → String

pub record Envelope : Type 0 where
  pub version : String
  pub alg : String
  pub request_id : Option String
  pub timestamp : Option ℕ
  pub iv : String
  pub ciphertext : String
  pub tag : String

-- A body is an envelope where its field `encrypted` is true. Without a secret it is passed on as it is.
pub data Incoming (P : Type 0) : Type 0 where
  plain : P → Incoming P
  sealed : Envelope → Incoming P

pub data SecurityError : Type 0 where
  invalid_envelope stale_envelope security_required invalid_payload invalid_ciphertext :
      SecurityError

pub data Opened (P : Type 0) : Type 0 where
  ok : P → Opened P
  passed_on : Envelope → Opened P
  err : SecurityError → Opened P

unfoldable pub status_of : SecurityError → ℕ
status_of invalid_envelope = 400
status_of stale_envelope = 401
status_of security_required = 401
status_of invalid_payload = 400
status_of invalid_ciphertext = 401

abbrev pub security_version : String
security_version = "kovael-chair-v1"

abbrev pub encryption_alg : String
encryption_alg = "A256GCM"

abbrev pub max_clock_skew_ms : ℕ
max_clock_skew_ms = 300_000

-- The secret of the environment, if it is long enough.
unfoldable pub current_secret : Option String → Option String
current_secret none = none
current_secret (some raw) =
    if not (str_eq (trim raw) "") && leb 32 (units (trim raw)) then some (trim raw) else none

unfoldable pub aad_for : String → ℕ → String
unfolding ◌+++◌ decimal
aad_for request timestamp = security_version +++ "\n" +++ request +++ "\n" +++ decimal timestamp

unfoldable pub age_of : ℕ → ℕ → ℕ
age_of now timestamp = (now - timestamp) + (timestamp - now)

-- `asEnvelope`: the identifier and the time of an envelope that is well formed and fresh.
pub data Checked : Type 0 where
  good : String → ℕ → Checked
  bad : SecurityError → Checked

unfoldable pub as_envelope : Envelope → ℕ → Checked
unfolding age_of
as_envelope e now =
    if not (str_eq e.version security_version) || not (str_eq e.alg encryption_alg)
    then bad invalid_envelope
    else elim e.request_id [
      | none ↦ bad invalid_envelope
      | some request ↦ if str_eq request "" then bad invalid_envelope else elim e.timestamp [
        | none ↦ bad invalid_envelope
        | some t ↦
            if ltb max_clock_skew_ms (age_of now t) then bad stale_envelope else good request t
      ]
    ]

module _ {P : Type 0} (c : Cipher P) where
  unfoldable pub seal_body : String → P → String → ℕ → String → Envelope
  unfolding aad_for
  seal_body secret payload request now iv =
      let key = c.key_for secret in
      let aad = aad_for request now in
      record {
        version = security_version;
        alg = encryption_alg;
        request_id = some request;
        timestamp = some now;
        iv = iv;
        ciphertext = c.encrypt key iv aad (c.print payload);
        tag = c.tag_of key iv aad (c.print payload);
      }

  unfoldable pub secure_chair_dispatch_body : Option String → P → String → ℕ → String → Incoming P
  unfolding current_secret seal_body
  secure_chair_dispatch_body env payload request now iv = elim (current_secret env) [
    | none ↦ plain payload
    | some secret ↦ sealed (seal_body secret payload request now iv)
  ]

  unfoldable pub read_payload : Parsed P → Opened P
  read_payload (object p) = ok p
  read_payload no_object = err invalid_payload
  read_payload malformed = err invalid_ciphertext

  unfoldable pub decipher : String → Envelope → String → ℕ → Opened P
  unfolding aad_for read_payload
  decipher secret e request t =
      if str_eq e.iv ""
      then err invalid_envelope
      else if not (c.accepts_iv e.iv)
      then err invalid_ciphertext
      else if str_eq e.tag ""
      then err invalid_envelope
      else if not (c.accepts_tag e.tag)
      then err invalid_ciphertext
      else if str_eq e.ciphertext ""
      then err invalid_envelope
      else elim (c.decrypt (c.key_for secret) e.iv (aad_for request t) e.ciphertext e.tag) [
        | none ↦ err invalid_ciphertext
        | some text ↦ read_payload (c.parse text)
      ]

  unfoldable pub open_sealed : String → Envelope → ℕ → Opened P
  unfolding as_envelope decipher
  open_sealed secret e now = elim (as_envelope e now) [
    | bad x ↦ err x
    | good request t ↦ decipher secret e request t
  ]

  unfoldable pub open_chair_dispatch_body : Option String → Incoming P → ℕ → Opened P
  unfolding current_secret open_sealed
  open_chair_dispatch_body env (plain p) now = elim (current_secret env) [
    | none ↦ ok p
    | some secret ↦ err security_required
  ]
  open_chair_dispatch_body env (sealed e) now = elim (current_secret env) [
    | none ↦ passed_on e
    | some secret ↦ open_sealed secret e now
  ]

  unfoldable pub create_chair_reply_proof : String → String → String → String
  unfolding trim ◌+++◌
  create_chair_reply_proof request session secret =
      c.hmac (trim secret) (trim request +++ "\n" +++ trim session)

  unfoldable pub verify_chair_reply_proof : String → String → String → String → Bool
  unfolding create_chair_reply_proof trim
  verify_chair_reply_proof request session secret proof =
      str_eq (c.from_hex (trim proof))
        (c.from_hex (create_chair_reply_proof request session secret))
