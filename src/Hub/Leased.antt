-- ===== src/Hub/Leased.antt =====
-- src/services/AgentHubStore.ts: the rows of the outbox while one of them is leased.
use kovael.Common.{
  ℕ, ◌+◌, ◌<◌, ◌≡◌, refl, ◌∙◌, String, Bool, true, false, ◌||◌, List, [], ◌∷◌, arith, ◌==◌, leb,
  not, ◌&&◌, Bool-cases, inl, inr, str_eq, eq_iff,
}
use kovael.Dispatches.{contains}
use kovael.Hub.{Hub, Outbound, Result, ok, err, sent, dead, sending}
use kovael.Hub.Outbox.{
  claim_due_outbox, chosen_ids, lease_rows, leased, rows_in, order_rows, by_due, by_creation,
  due_rows, is_due, same, ids, upsert, update_row, delivered, prune_rows, replaced,
}
use kovael.Hub.Rows.{contains-order, contains-take, contains-rows_in}

abbrev pub claimed : Result (List Outbound) → List Outbound
claimed (ok h xs) = xs
claimed (err e) = []

pub taken :
    (h : Hub) (limit lease now : ℕ) (id : String)
    → contains id (chosen_ids now limit lease h.outbox) ≡ false
    → contains id (ids (claimed (claim_due_outbox h limit lease now))) ≡ false
unfolding claim_due_outbox ids contains
taken h limit lease now id e = elim (Bool-cases (limit == 0)) [
  | inl a ↦ rw (a, claim_due_outbox) refl
  | inr a ↦ elim (Bool-cases (lease == 0)) [
    | inl b ↦ rw (a, b, claim_due_outbox) refl
    | inr b ↦
        rw (a, b, claim_due_outbox)
          (let box = lease_rows now (chosen_ids now limit lease h.outbox) h.outbox in
            let rows = rows_in (chosen_ids now limit lease h.outbox) box in
            contains-order by_creation id rows
            ∙ contains-rows_in (chosen_ids now limit lease h.outbox) id box e)
  ]
]

-- The rows with an identifier have a key.
abbrev pub keyed : String → String → List Outbound → Bool
keyed id key [] = true
keyed id key (x ∷ xs) = (not (str_eq x.id id) || str_eq x.dedupe_key key) && keyed id key xs

-- A row is out since a time: it is leased, or delivered, or given up.
abbrev pub is_out : ℕ → Outbound → Bool
is_out at x =
    same x.status sent || same x.status dead || (same x.status sending && leb at x.updated_at)

abbrev pub one_out : String → String → ℕ → Outbound → Bool
one_out id key at x = not (str_eq x.id id) || (str_eq x.dedupe_key key && is_out at x)

abbrev pub all_out : String → String → ℕ → List Outbound → Bool
all_out id key at [] = true
all_out id key at (x ∷ xs) = one_out id key at x && all_out id key at xs

module _ (id key : String) (at : ℕ) where
  -- What a lease makes of the rows.
  pub lease-out :
      (chosen : List String) (box : List Outbound)
      → contains id chosen ≡ true
      → keyed id key box ≡ true
      → all_out id key at (lease_rows at chosen box) ≡ true
  unfolding lease_rows leased same
  lease-out chosen [] c v = refl
  lease-out chosen (x ∷ xs) c v = elim (Bool-cases (contains x.id chosen)) [
    | inl e ↦ rw (e) (ground (arith, lease-out chosen xs c))
    | inr e ↦ rw (e) (ground (arith, lease-out chosen xs c, eq_iff x.id id))
  ]

  pub out-due :
      (now lease : ℕ) (box : List Outbound)
      → now < at + lease
      → all_out id key at box ≡ true
      → contains id (ids (due_rows now lease box)) ≡ false
  unfolding due_rows is_due same ids contains
  out-due now lease [] l v = refl
  out-due now lease (x ∷ xs) l v = elim (Bool-cases (is_due now lease x)) [
    | inl e ↦ rw (e) (ground (arith, out-due now lease xs l, due-apart now lease x l))
    | inr e ↦ rw (e) (ground (arith, out-due now lease xs l))
  ]
    where
      due-apart :
          (now lease : ℕ) (x : Outbound)
          → now < at + lease
          → one_out id key at x ≡ true
          → is_due now lease x ≡ true
          → str_eq x.id id ≡ false
      due-apart now lease x l v d = ground arith

  pub out-chosen :
      (now limit lease : ℕ) (box : List Outbound)
      → now < at + lease
      → all_out id key at box ≡ true
      → contains id (chosen_ids now limit lease box) ≡ false
  unfolding chosen_ids
  out-chosen now limit lease box l v =
      contains-take limit id (order_rows by_due (due_rows now lease box))
        (contains-order by_due id (due_rows now lease box) ∙ out-due now lease box l v)

  pub lease-others :
      (now : ℕ) (chosen : List String) (box : List Outbound)
      → contains id chosen ≡ false
      → all_out id key at box ≡ true
      → all_out id key at (lease_rows now chosen box) ≡ true
  unfolding lease_rows leased
  lease-others now chosen [] c v = refl
  lease-others now chosen (x ∷ xs) c v = elim (Bool-cases (contains x.id chosen)) [
    | inl e ↦ rw (e) (ground (arith, lease-others now chosen xs c, eq_iff x.id id))
    | inr e ↦ rw (e) (ground (arith, lease-others now chosen xs c))
  ]

  pub delivered-out :
      (j : String) (now : ℕ) (box : List Outbound)
      → all_out id key at box ≡ true
      → all_out id key at (update_row j (delivered now) box) ≡ true
  unfolding update_row delivered same
  delivered-out j now [] v = refl
  delivered-out j now (x ∷ xs) v = ground (arith, delivered-out j now xs)

  pub update-out :
      (j : String) (f : Outbound → Outbound) (box : List Outbound)
      → str_eq j id ≡ false
      → ((x : Outbound) → (f x).id ≡ x.id)
      → all_out id key at box ≡ true
      → all_out id key at (update_row j f box) ≡ true
  unfolding update_row
  update-out j f [] n k v = refl
  update-out j f (x ∷ xs) n k v = elim (Bool-cases (str_eq x.id j)) [
    | inl e ↦ rw (e, k x) (ground (arith, update-out j f xs n k, eq_iff x.id j))
    | inr e ↦ rw (e) (ground (arith, update-out j f xs n k))
  ]

  pub prune-out :
      (before : ℕ) (box : List Outbound)
      → all_out id key at box ≡ true
      → all_out id key at (prune_rows before box) ≡ true
  unfolding prune_rows
  prune-out before [] v = refl
  prune-out before (x ∷ xs) v = ground (arith, prune-out before xs)

  pub upsert-out :
      (new : Outbound) (box : List Outbound)
      → str_eq new.id id ≡ false
      → str_eq key new.dedupe_key ≡ false
      → all_out id key at box ≡ true
      → all_out id key at (upsert new box) ≡ true
  unfolding upsert replaced
  upsert-out new [] n k v = ground arith
  upsert-out new (x ∷ xs) n k v = elim (Bool-cases (str_eq x.dedupe_key new.dedupe_key)) [
    | inl e ↦ rw (e) (ground (arith, eq_iff x.dedupe_key new.dedupe_key, eq_iff x.dedupe_key key))
    | inr e ↦ rw (e) (ground (arith, upsert-out new xs n k))
  ]
