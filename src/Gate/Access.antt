-- ===== src/Gate/Access.antt =====
-- src/services/ApiTokenGate.ts: who gets through the guard.
use kovael.Common.{
  ◌≡◌, refl, sym, ap, ◌∙◌, subst, String, Bool, true, false, ◌||◌, Option, none, some, List, [],
  ◌∷◌, Bool-cases, Option-cases, inl, inr, str_eq, eq_iff, after_prefix, after_prefix-some,
  after_prefix-append, ◌+++◌, is_some, if◌then◌else◌,
}
use kovael.Gate.{
  Gate, Header, missing, single, several, Outcome, create, matches, bears, verify, find_bearer,
  in_header, in_query, parse_subprotocols, verify_web_socket_upgrade,
}

-- The header says `Bearer`, a space and the token.
abbrev pub is_bearer : String → Header → Bool
is_bearer token missing = false
is_bearer token (several hs) = false
is_bearer token (single h) = str_eq h ("Bearer " +++ token)

-- The first of the subprotocols that is `bearer.` and the token.
abbrev pub bearer_in : String → List String → Option String
bearer_in token [] = none
bearer_in token (p ∷ ps) =
    let rest = bearer_in token ps in if str_eq p ("bearer." +++ token) then some p else rest

abbrev pub is_token : String → Option String → Bool
is_token token none = false
is_token token (some s) = str_eq s token

Bool-iff : (a b : Bool) → (a ≡ true → b ≡ true) → (b ≡ true → a ≡ true) → a ≡ b
Bool-iff true true f g = refl
Bool-iff true false f g = let h = f refl in cc
Bool-iff false true f g = let h = g refl in cc
Bool-iff false false f g = refl

-- The outcome of an upgrade, by who has the token.
abbrev pub Tells : String → Header → List String → Option String → Outcome → Type 0
Tells token h ps q x =
    (x.allowed ≡ (is_bearer token h || is_some (bearer_in token ps) || is_token token q))
    × (x.selected_subprotocol ≡ (if is_bearer token h then none else bearer_in token ps))

module _ (hash : String → String) (collision_free : (s t : String) → hash s ≡ hash t → s ≡ t)
    (token : String) (is_set : str_eq token "" ≡ false) where
  abbrev gate : Gate
  gate = record { expected_hash = some (hash token) }

  create-gate : create hash (some token) ≡ gate
  unfolding create
  create-gate = rw (is_set) refl

  matches-token : (s : String) → matches hash gate s ≡ str_eq s token
  unfolding matches
  matches-token s =
      Bool-iff (str_eq (hash s) (hash token)) (str_eq s token)
        (λ e. (eq_iff s token).1 (collision_free s token ((eq_iff (hash s) (hash token)).0 e)))
        (λ e. (eq_iff (hash s) (hash token)).1 (ap hash ((eq_iff s token).0 e)))

  bears-token :
      (prefix text : String) → bears hash gate prefix text ≡ str_eq text (prefix +++ token)
  unfolding bears
  bears-token prefix text = elim (Option-cases (after_prefix prefix text)) [
    | inl e ↦
        rw (e, bears)
          (Bool-iff false (str_eq text (prefix +++ token)) (λ f. cc)
            (λ f.
              let g : after_prefix prefix text ≡ some token =
                ap (after_prefix prefix) ((eq_iff text (prefix +++ token)).0 f)
                ∙ after_prefix-append prefix token in
              cc))
    | inr (t, e) ↦
        rw (e, bears)
          (matches-token t
            ∙ Bool-iff (str_eq t token) (str_eq text (prefix +++ token))
                (λ f. (eq_iff text (prefix +++ token)).1 (
                  after_prefix-some prefix text t e
                  ∙ ap (λ s. prefix +++ s) ((eq_iff t token).0 f)))
                (λ f.
                  let g : after_prefix prefix text ≡ some token =
                    ap (after_prefix prefix) ((eq_iff text (prefix +++ token)).0 f)
                    ∙ after_prefix-append prefix token in
                  let w : t ≡ token = cc in (eq_iff t token).1 w))
  ]

  find_bearer-token : (ps : List String) → find_bearer hash gate ps ≡ bearer_in token ps
  unfolding find_bearer
  find_bearer-token [] = refl
  find_bearer-token (p ∷ ps) = rw (bears-token "bearer." p, find_bearer-token ps) refl

  in_header-token : (h : Header) → in_header hash gate h ≡ is_bearer token h
  unfolding in_header
  in_header-token missing = refl
  in_header-token (single s) = bears-token "Bearer " s
  in_header-token (several ss) = refl

  in_query-token : (q : Option String) → in_query hash gate q ≡ is_token token q
  unfolding in_query
  in_query-token none = refl
  in_query-token (some s) = matches-token s

  -- Over a digest without collisions, and with a token that is not empty, a request gets through
  -- exactly if its header is `Bearer` with that token.
  pub verify-is_bearer : (h : Header) → verify hash (create hash (some token)) h ≡ is_bearer token h
  unfolding verify
  verify-is_bearer missing = rw (create-gate) refl
  verify-is_bearer (single s) = rw (create-gate) (bears-token "Bearer " s)
  verify-is_bearer (several ss) = rw (create-gate) refl

  upgrade-Tells :
      (h protocols : Header) (q : Option String)
      → Tells token h
          (parse_subprotocols protocols)
          q
          (verify_web_socket_upgrade hash gate h protocols q)
  unfolding verify_web_socket_upgrade
  upgrade-Tells h protocols q =
      let ps = parse_subprotocols protocols in
      elim (Bool-cases (in_header hash gate h)) [
        | inl e ↦ rw (e, sym (in_header-token h) ∙ e, verify_web_socket_upgrade) (refl, refl)
        | inr e ↦
            let e' : is_bearer token h ≡ false = sym (in_header-token h) ∙ e in
            elim (Option-cases (find_bearer hash gate ps)) [
              | inr (p, f) ↦
                  rw (e, e', f, sym (find_bearer-token ps) ∙ f, verify_web_socket_upgrade)
                    (refl, refl)
              | inl f ↦ elim (Bool-cases (in_query hash gate q)) [
                | inl g ↦
                    rw
                      (
                        e,
                        e',
                        f,
                        g,
                        sym (find_bearer-token ps) ∙ f,
                        sym (in_query-token q) ∙ g,
                        verify_web_socket_upgrade,
                      )
                      (refl, refl)
                | inr g ↦
                    rw
                      (
                        e,
                        e',
                        f,
                        g,
                        sym (find_bearer-token ps) ∙ f,
                        sym (in_query-token q) ∙ g,
                        verify_web_socket_upgrade,
                      )
                      (refl, refl)
              ]
            ]
      ]

  -- Over a digest without collisions, and with a token that is not empty, an upgrade is allowed
  -- exactly if the header, one of the subprotocols or the query has that token; and a subprotocol is
  -- selected only where the header has not the token, and then it is the first that has it.
  pub verify_web_socket_upgrade-Tells :
      (h protocols : Header) (q : Option String)
      → Tells token h
          (parse_subprotocols protocols)
          q
          (verify_web_socket_upgrade hash (create hash (some token)) h protocols q)
  verify_web_socket_upgrade-Tells h protocols q =
      subst
        (λ (g : Gate).
          Tells token h (parse_subprotocols protocols) q
            (verify_web_socket_upgrade hash g h protocols q))
        (sym create-gate) (upgrade-Tells h protocols q)
