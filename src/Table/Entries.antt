-- ===== src/Table/Entries.antt =====
-- Statements on every entry of a table.
use kovael.Common.{◌≡◌, String, some, [], ◌∷◌, arith, eq_iff}
use kovael.Table.{Table, get, set, delete}

module _ {ℓ κ} {V : Type ℓ} (P : String → V → Type κ) where
  abbrev pub AllEntries : Table V → Type κ
  AllEntries [] = Unit
  AllEntries ((k, v) ∷ t) = P k v × AllEntries t

  pub AllEntries-get : (k : String) (v : V) (t : Table V) → AllEntries t → get k t ≡ some v → P k v
  unfolding get
  AllEntries-get k v [] a h = cc
  AllEntries-get k v ((j, w) ∷ t) a h = ground (arith, eq_iff j k, AllEntries-get k v t a.1)

  pub AllEntries-set :
      (k : String) (v : V) (t : Table V) → P k v → AllEntries t → AllEntries (set k v t)
  unfolding set
  AllEntries-set k v [] p a = (p, tt)
  AllEntries-set k v ((j, w) ∷ t) p a = ground (arith, eq_iff j k, AllEntries-set k v t p a.1)

  pub AllEntries-delete : (k : String) (t : Table V) → AllEntries t → AllEntries (delete k t)
  unfolding delete
  AllEntries-delete k [] a = tt
  AllEntries-delete k ((j, w) ∷ t) a = ground (arith, AllEntries-delete k t a.1)
