-- ===== src/Table.antt =====
-- JavaScript's `Map` with text keys, as the services use it: iteration is in order of insertion,
-- a write to a present key keeps its place, and a write to a new key goes to the end.
pub mod Entries
pub mod Laws
use kovael.Common.{
  ℕ, String, Bool, Option, none, some, List, [], ◌∷◌, map, str_eq, length, is_some, if◌then◌else◌,
}

abbrev pub Table {ℓ} : Type ℓ → Type ℓ
Table V = List (String × V)

module _ {ℓ} {V : Type ℓ} where
  unfoldable pub get : String → Table V → Option V
  get k [] = none
  get k ((j, v) ∷ t) = if str_eq j k then some v else get k t

  abbrev pub has : String → Table V → Bool
  has k t = is_some (get k t)

  unfoldable pub set : String → V → Table V → Table V
  set k v [] = (k, v) ∷ []
  set k v ((j, w) ∷ t) = if str_eq j k then (j, v) ∷ t else (j, w) ∷ set k v t

  unfoldable pub delete : String → Table V → Table V
  delete k [] = []
  delete k ((j, v) ∷ t) = let rest = delete k t in if str_eq j k then rest else (j, v) ∷ rest

  abbrev pub keys : Table V → List String
  keys = map (λ e. e.0)

  abbrev pub values : Table V → List V
  values = map (λ e. e.1)

  abbrev pub size : Table V → ℕ
  size = length
