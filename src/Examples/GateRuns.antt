-- ===== src/Examples/GateRuns.antt =====
-- src/services/ApiTokenGate.ts: a token in a header, and one in a subprotocol.
use kovael.Common.{String, ◌≡◌, refl, none, some, [], ◌∷◌, trim}
use kovael.Gate.{missing, single, create, verify_web_socket_upgrade, parse_subprotocols}
use kovael.Gate.Access.{Tells, verify_web_socket_upgrade-Tells}

-- A digest that gives the text itself has no collisions.
abbrev plain : String → String
plain s = s

offered : parse_subprotocols (single "json, bearer.abc ,") ≡ "json" ∷ "bearer.abc" ∷ []
unfolding parse_subprotocols trim
offered = refl

verify_web_socket_upgrade-Tells_example : Tells "abc" missing ("json" ∷ "bearer.abc" ∷ []) none (
    verify_web_socket_upgrade plain
      (create plain (some "abc"))
      missing
      (single "json, bearer.abc ,")
      none)
unfolding parse_subprotocols trim
verify_web_socket_upgrade-Tells_example =
    verify_web_socket_upgrade-Tells plain (λ s t e. e) "abc" refl missing
      (single "json, bearer.abc ,") none
