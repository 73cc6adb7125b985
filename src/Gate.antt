-- ===== src/Gate.antt =====
-- src/services/ApiTokenGate.ts: the guard of the API by a bearer token.
--
-- The digest is a function of the token; the comparison of two digests is their equality. A header
-- is missing, one text, or several. The query of a URL is read by an argument.
pub mod Access
use Prim.Native.Char.{Char, code}
use kovael.Common.{
  ℕ, String, Bool, true, false, not, ◌&&◌, Option, none, some, List, [], ◌∷◌, ◌==◌, str_eq, trim,
  after_prefix, if◌then◌else◌, ◌+++◌, is_some,
}

pub data Header : Type 0 where
  missing : Header
  single : String → Header
  several : List String → Header

pub data Source : Type 0 where
  by_header by_query by_subprotocol : Source

pub record Outcome : Type 0 where
  pub allowed : Bool
  pub source : Option Source
  pub selected_subprotocol : Option String

pub record Gate : Type 0 where
  pub expected_hash : Option String

-- The constructor, given the variable of the environment.
unfoldable pub create : (String → String) → Option String → Gate
create hash none = record { expected_hash = none }
create hash (some raw) = record { expected_hash = if str_eq raw "" then none else some (hash raw) }

unfoldable pub matches : (String → String) → Gate → String → Bool
matches hash g presented = elim g.expected_hash [
  | none ↦ false
  | some d ↦ str_eq (hash presented) d
]

-- `text.startsWith(prefix) && this.matches(text.slice(prefix.length))`
unfoldable pub bears : (String → String) → Gate → String → String → Bool
unfolding matches
bears hash g prefix text = elim (after_prefix prefix text) [
  | none ↦ false
  | some token ↦ matches hash g token
]

unfoldable pub verify : (String → String) → Gate → Header → Bool
unfolding bears
verify hash g header = elim g.expected_hash [
  | none ↦ true
  | some _ ↦ elim header [
    | single h ↦ bears hash g "Bearer " h
    | missing ↦ false
    | several hs ↦ false
  ]
]

-- `header.join(',')`
unfoldable pub join_commas : List String → String
unfolding ◌+++◌
join_commas [] = ""
join_commas (s ∷ []) = s
join_commas (s ∷ t ∷ rest) = s +++ "," +++ join_commas (t ∷ rest)

-- `split(',')`, given what is before the text.
unfoldable pub split_commas : String → String → List String
unfolding ◌+++◌
split_commas before String.[] = before ∷ []
split_commas before (String.◌∷◌ c s) =
    let done = split_commas "" s in
    let on = split_commas (before +++ String.◌∷◌ c String.[]) s in
    if code c == b',' then before ∷ done else on

unfoldable pub trimmed_texts : List String → List String
trimmed_texts [] = []
trimmed_texts (s ∷ ss) =
    let rest = trimmed_texts ss in if str_eq (trim s) "" then rest else trim s ∷ rest

unfoldable pub parse_subprotocols : Header → List String
unfolding join_commas split_commas trimmed_texts
parse_subprotocols missing = []
parse_subprotocols (single s) = trimmed_texts (split_commas "" s)
parse_subprotocols (several ss) = trimmed_texts (split_commas "" (join_commas ss))

-- The first subprotocol that bears the token.
unfoldable pub find_bearer : (String → String) → Gate → List String → Option String
unfolding bears
find_bearer hash g [] = none
find_bearer hash g (p ∷ ps) =
    let rest = find_bearer hash g ps in if bears hash g "bearer." p then some p else rest

unfoldable pub in_header : (String → String) → Gate → Header → Bool
unfolding bears
in_header hash g (single h) = bears hash g "Bearer " h
in_header hash g missing = false
in_header hash g (several hs) = false

unfoldable pub in_query : (String → String) → Gate → Option String → Bool
unfolding matches
in_query hash g none = false
in_query hash g (some token) = matches hash g token

unfoldable pub verify_web_socket_upgrade :
    (String → String) → Gate → Header → Header → Option String → Outcome
unfolding in_header find_bearer in_query
verify_web_socket_upgrade hash g header protocols query = elim g.expected_hash [
  | none ↦ record { allowed = true; source = none; selected_subprotocol = none }
  | some _ ↦
      if in_header hash g header
      then record { allowed = true; source = some by_header; selected_subprotocol = none }
      else elim (find_bearer hash g (parse_subprotocols protocols)) [
        | some p ↦ record {
          allowed = true;
          source = some by_subprotocol;
          selected_subprotocol = some p;
        }
        | none ↦
            if in_query hash g query
            then record { allowed = true; source = some by_query; selected_subprotocol = none }
            else record { allowed = false; source = none; selected_subprotocol = none }
      ]
]
