-- ===== src/Limiter/Client.antt =====
-- src/services/RateLimiter.ts: `clientKey`, the address that a request's bucket is kept under.
--
-- Node's `isIP` is an argument: the version of an address, or zero where the text is none.
use Prim.Native.Char.{code}
use kovael.Common.{
  ℕ, ◌≡◌, refl, ◌∙◌, sym, String, Bool, true, false, not, ◌&&◌, Option, none, some, List, [], ◌∷◌,
  ◌==◌, str_eq, trim, after_prefix, after_prefix-append, if◌then◌else◌, ◌+++◌, or_default,
}

-- The header `x-forwarded-for`: missing, one text, or several.
pub data Forwarded : Type 0 where
  missing : Forwarded
  single : String → Forwarded
  several : List String → Forwarded

pub record Request : Type 0 where
  pub forwarded : Forwarded
  pub remote_address : Option String

-- An address of version 4 that is mapped into version 6 is taken out.
unfoldable normalize_ip : (String → ℕ) → String → String
normalize_ip is_ip addr = elim (after_prefix "::ffff:" addr) [
  | none ↦ addr
  | some v4 ↦ if is_ip v4 == 4 then v4 else addr
]

unfoldable first_header : Forwarded → Option String
first_header missing = none
first_header (single s) = some s
first_header (several []) = none
first_header (several (s ∷ ss)) = some s

-- `split(',')[0]`
unfoldable before_comma : String → String
before_comma String.[] = String.[]
before_comma (String.◌∷◌ c s) =
    let rest = before_comma s in if code c == b',' then String.[] else String.◌∷◌ c rest

unfoldable is_address : (String → ℕ) → String → Bool
is_address is_ip s = not (str_eq s "") && not (is_ip s == 0)

-- The key that a trusted proxy gives, if it names an address.
unfoldable forwarded_key : (String → ℕ) → Forwarded → Option String
unfolding first_header before_comma is_address normalize_ip
forwarded_key is_ip h = elim (first_header h) [
  | none ↦ none
  | some raw ↦
      if not (str_eq raw "") && is_address is_ip (trim (before_comma raw))
      then some (normalize_ip is_ip (trim (before_comma raw)))
      else none
]

unfoldable remote_key : (String → ℕ) → Option String → String
unfolding is_address normalize_ip
remote_key is_ip none = "unknown"
remote_key is_ip (some remote) =
    if is_address is_ip remote then normalize_ip is_ip remote else remote

unfoldable pub client_key : (String → ℕ) → Bool → Request → String
unfolding forwarded_key remote_key
client_key is_ip trust_proxy r =
    if trust_proxy
    then or_default (forwarded_key is_ip r.forwarded) (remote_key is_ip r.remote_address)
    else remote_key is_ip r.remote_address

normalize_ip-mapped :
    (is_ip : String → ℕ) (v4 : String) → is_ip v4 ≡ 4 → normalize_ip is_ip ("::ffff:" +++ v4) ≡ v4
unfolding normalize_ip
normalize_ip-mapped is_ip v4 four =
    rw (normalize_ip, after_prefix-append "::ffff:" v4) (rw (four) refl)

normalize_ip-plain :
    (is_ip : String → ℕ) (v4 : String)
    → after_prefix "::ffff:" v4 ≡ none
    → normalize_ip is_ip v4 ≡ v4
unfolding normalize_ip
normalize_ip-plain is_ip v4 plain = rw (normalize_ip, plain) refl

remote_key-address :
    (is_ip : String → ℕ) (s : String)
    → is_address is_ip s ≡ true
    → remote_key is_ip (some s) ≡ normalize_ip is_ip s
unfolding remote_key normalize_ip
remote_key-address is_ip s e = rw (remote_key, e) refl

-- A request from an address of version 4 and one from the same address mapped into version 6 have one
-- key, whatever an untrusted client writes in the header.
client_key-mapped :
    (is_ip : String → ℕ) (v4 : String) (h h' : Forwarded)
    → is_ip v4 ≡ 4
    → is_address is_ip v4 ≡ true
    → is_address is_ip ("::ffff:" +++ v4) ≡ true
    → after_prefix "::ffff:" v4 ≡ none
    → client_key is_ip false (record { forwarded = h; remote_address = some ("::ffff:" +++ v4) })
      ≡ client_key is_ip false (record { forwarded = h'; remote_address = some v4 })
unfolding client_key
client_key-mapped is_ip v4 h h' four known known_mapped plain =
    remote_key-address is_ip ("::ffff:" +++ v4) known_mapped
    ∙ normalize_ip-mapped is_ip v4 four
    ∙ sym (remote_key-address is_ip v4 known ∙ normalize_ip-plain is_ip v4 plain)
