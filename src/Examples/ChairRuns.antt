-- ===== src/Examples/ChairRuns.antt =====
-- src/services/ChairRegistry.ts: a chair that is taken over, swept and read back.
use Prim.Native.Char.{Char, code}
use kovael.Common.{
  ◌≡◌, refl, ap, ◌∙◌, String, false, none, some, List, [], ◌∷◌, if◌then◌else◌, ◌==◌,
}
use kovael.Table.{Table, get, set}
use kovael.Chairs.{
  Row, Json, Registry, Input, claims, sweeps, default_config, run, step, claim, heartbeat, release,
  attach, client_release, row_of, new_claim, persist, store, emit, supersede,
}
use kovael.Chairs.Keyed.{IsKeyed, step-IsKeyed}
use kovael.Chairs.Mirror.{IsMirrored, step-IsMirrored}
use kovael.Chairs.Sessions.{superseded_refused}
use kovael.Chairs.Restart.{get-restart, restarted}

-- A plain text for lists of texts: x before each character, y after each item.
write_item : String → String → String
write_item String.[] rest = String.◌∷◌ "y" rest
write_item (String.◌∷◌ c s) rest = String.◌∷◌ "x" (String.◌∷◌ c (write_item s rest))

write : List String → String
unfolding write_item
write [] = String.[]
write (s ∷ ss) = write_item s (write ss)

push : Char → List String → List String
push c [] = []
push c (s ∷ ss) = String.◌∷◌ c s ∷ ss

read : String → List String
unfolding push
read String.[] = []
read (String.◌∷◌ t String.[]) = "" ∷ []
read (String.◌∷◌ t (String.◌∷◌ c r)) =
    let more = read (String.◌∷◌ c r) in
    let rest = read r in if code t == b'y' then "" ∷ more else push c rest

read-write_item : (s rest : String) → read (write_item s rest) ≡ s ∷ read rest
unfolding write_item read
read-write_item String.[] String.[] = refl
read-write_item String.[] (String.◌∷◌ c r) = refl
read-write_item (String.◌∷◌ c s) rest = ap (push c) (read-write_item s rest)

read-write : (ss : List String) → read (write ss) ≡ ss
unfolding write read
read-write [] = refl
read-write (s ∷ ss) = read-write_item s (write ss) ∙ ap (◌∷◌ s) (read-write ss)

abbrev plain : Json
plain = record { encode = write; decode = λ s. some (read s) }

abbrev cook : Input
cook = record {
  agent_id = "cook";
  provider = "local";
  capabilities = some ("git" ∷ []);
  trust_tier = none;
  host = none;
  note = none;
  inbox_url = none;
}

abbrev no_chairs : Registry
no_chairs = record { cfg = default_config; json = plain; chairs = []; db = some []; emitted = [] }

no_chairs-IsKeyed : IsKeyed no_chairs
no_chairs-IsKeyed = record { unique = tt; own = tt }

no_chairs-IsMirrored : IsMirrored no_chairs
unfolding IsMirrored get
no_chairs-IsMirrored a = refl

abbrev seated : Registry
seated = step no_chairs (1000, claims cook "s1")

seated-IsKeyed : IsKeyed seated
seated-IsKeyed = step-IsKeyed no_chairs (1000, claims cook "s1") no_chairs-IsKeyed

step-IsMirrored_example : IsMirrored (step no_chairs (1000, claims cook "s1"))
step-IsMirrored_example = step-IsMirrored no_chairs (1000, claims cook "s1") no_chairs-IsMirrored

superseded_refused_example :
    let r = run (claim seated cook "s2" 2000).0 ((3000, sweeps) ∷ []) in
    ((heartbeat r "cook" "s1" none 4000).1 ≡ none)
    × ((release r "cook" "s1" client_release 4000).1 ≡ false)
superseded_refused_example =
    superseded_refused seated cook "s1" "s2" 2000 4000 ((3000, sweeps) ∷ []) none client_release
      seated-IsKeyed refl (refl, tt)

abbrev seated_rows : Table Row
seated_rows = ("cook", row_of plain (new_claim cook "s1" 1000)) ∷ []

get-restart_example :
    get "cook" (attach default_config plain seated_rows 20_000).chairs
    ≡ restarted default_config 20_000 (get "cook" seated.chairs)
unfolding step get set persist store emit supersede
get-restart_example =
    get-restart seated seated_rows 20_000 "cook" (λ cs. ap some (read-write cs)) seated-IsKeyed
      step-IsMirrored_example refl (refl, tt)
