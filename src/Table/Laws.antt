-- ===== src/Table/Laws.antt =====
-- The laws of a table: what a read sees after a write, and the number of entries.
use kovael.Common.{
  str_eq_self, zero, drop, ◌++◌, ℕ, suc, ◌+◌, ◌≡◌, refl, String, none, some, [], ◌∷◌, arith, str_eq,
  eq_iff, if◌then◌else◌,
}
use kovael.Table.{keys, Table, get, set, delete, has, size}

module _ {ℓ} {V : Type ℓ} where
  pub get-set :
      (k j : String) (v : V) (t : Table V)
      → get j (set k v t) ≡ (if str_eq k j then some v else get j t)
  unfolding get set
  get-set k j v [] = refl
  get-set k j v ((i, w) ∷ t) = ground (arith, eq_iff k j, eq_iff i k, eq_iff i j, get-set k j v t)

  pub get-delete :
      (k j : String) (t : Table V) → get j (delete k t) ≡ (if str_eq k j then none else get j t)
  unfolding get delete
  get-delete k j [] = ground arith
  get-delete k j ((i, w) ∷ t) = ground (arith, eq_iff k j, eq_iff i k, eq_iff i j, get-delete k j t)

  -- No key stands twice.
  abbrev pub Unique : Table V → Type ℓ
  Unique [] = Unit
  Unique ((k, v) ∷ t) = (get k t ≡ none) × Unique t

  pub set-Unique : (k : String) (v : V) (t : Table V) → Unique t → Unique (set k v t)
  unfolding set get
  set-Unique k v [] u = (refl, tt)
  set-Unique k v ((j, w) ∷ t) u =
      ground (arith, eq_iff j k, eq_iff k j, set-Unique k v t u.1, get-set k j v t)

  pub delete-Unique : (k : String) (t : Table V) → Unique t → Unique (delete k t)
  unfolding delete
  delete-Unique k [] u = tt
  delete-Unique k ((j, w) ∷ t) u =
      ground (arith, eq_iff j k, eq_iff k j, delete-Unique k t u.1, get-delete k j t)

  pub size-set :
      (k : String) (v : V) (t : Table V)
      → size (set k v t) ≡ (if has k t then size t else suc (size t))
  unfolding set get
  size-set k v [] = refl
  size-set k v ((j, w) ∷ t) = ground (arith, size-set k v t)

  pub delete_absent : (k : String) (t : Table V) → get k t ≡ none → delete k t ≡ t
  unfolding get delete
  delete_absent k [] h = refl
  delete_absent k ((j, v) ∷ t) h = ground (arith, delete_absent k t)

  pub size-delete :
      (k : String) (t : Table V)
      → Unique t
      → size (delete k t) + (if has k t then 1 else 0) ≡ size t
  unfolding get delete
  size-delete k [] u = omega arith
  size-delete k ((j, v) ∷ t) u = ground (arith, eq_iff j k, size-delete k t u.1, delete_absent k t)

  pub keys-set :
      (k : String) (v : V) (t : Table V)
      → keys (set k v t) ≡ (if has k t then keys t else keys t ++ k ∷ [])
  unfolding set get
  keys-set k v [] = refl
  keys-set k v ((j, w) ∷ t) = ground (arith, eq_iff j k, keys-set k v t)

  pub delete_first :
      (k : String) (v : V) (t : Table V) → Unique ((k, v) ∷ t) → delete k ((k, v) ∷ t) ≡ t
  unfolding delete
  delete_first k v t u = rw (str_eq_self k) (delete_absent k t u.0)

  pub get-drop : (n : ℕ) (k : String) (t : Table V) → get k t ≡ none → get k (drop n t) ≡ none
  unfolding get drop
  get-drop zero k t h = h
  get-drop (suc n) k [] h = h
  get-drop (suc n) k ((j, v) ∷ t) h = get-drop n k t (ground arith)

  pub drop-Unique : (n : ℕ) (t : Table V) → Unique t → Unique (drop n t)
  unfolding drop
  drop-Unique zero t u = u
  drop-Unique (suc n) [] u = u
  drop-Unique (suc n) ((j, v) ∷ t) u = drop-Unique n t u.1
