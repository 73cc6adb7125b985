-- ===== src/Hub/Chain.antt =====
-- src/services/AgentHubStore.ts: the receipts of a request are a chain of hashes.
use kovael.Common.{
  ℕ, ◌≤◌, ◌≡◌, refl, ap, ◌∙◌, String, false, Option, none, some, List, [], ◌∷◌, ◌++◌, arith, ltb,
  All, Bool-cases, inl, inr, str_eq, eq_iff, if◌then◌else◌,
}
use kovael.Hub.{Crypto, Receipt, Body, later, latest, hash_of, receipt_digest, receipt_after}
use kovael.Hub.Memory.{prune_receipts}

-- The receipts of a request, in the order in which they were appended.
unfoldable pub of_request : String → List Receipt → List Receipt
of_request r [] = []
of_request r (x ∷ xs) =
    let rest = of_request r xs in if str_eq x.request_id r then x ∷ rest else rest

-- Each receipt holds the hash of the one before it.
abbrev pub Linked : Receipt → List Receipt → Type 0
Linked p [] = Unit
Linked p (x ∷ xs) = (x.prev_hash ≡ some p.receipt_hash) × Linked x xs

abbrev pub IsChain : List Receipt → Type 0
IsChain [] = Unit
IsChain (x ∷ xs) = Linked x xs

-- A receipt's hash is that of its own fields.
abbrev pub IsSealed : Crypto → Receipt → Type 0
IsSealed k x = x.receipt_hash ≡ receipt_digest k x.prev_hash x.body x.created_at

abbrev pub Sorted : List Receipt → Type 0
Sorted [] = Unit
Sorted (x ∷ xs) = All (λ (y : Receipt). x.created_at ≤ y.created_at) xs × Sorted xs

abbrev last_of : Option Receipt → List Receipt → Option Receipt
last_of o [] = o
last_of o (x ∷ xs) = last_of (some x) xs

abbrev Reaches : Option Receipt → List Receipt → Type 0
Reaches none xs = Unit
Reaches (some b) xs = All (λ (y : Receipt). b.created_at ≤ y.created_at) xs

Reaches-tail :
    (o : Option Receipt) (x : Receipt) (xs : List Receipt) → Reaches o (x ∷ xs) → Reaches o xs
Reaches-tail none x xs h = tt
Reaches-tail (some b) x xs h = h.1

later-newest :
    (o : Option Receipt) (x : Receipt) (xs : List Receipt) → Reaches o (x ∷ xs) → later o x ≡ some x
unfolding later
later-newest none x xs h = refl
later-newest (some b) x xs h = let e : b.created_at ≤ x.created_at = h.0 in ground arith

latest-last_of :
    (r : String) (o : Option Receipt) (xs : List Receipt)
    → Sorted xs
    → Reaches o xs
    → latest r o xs ≡ last_of o (of_request r xs)
unfolding latest of_request
latest-last_of r o [] s h = refl
latest-last_of r o (x ∷ xs) s h = elim (Bool-cases (str_eq x.request_id r)) [
  | inl e ↦ rw (e, later-newest o x xs h) (latest-last_of r (some x) xs s.1 s.0)
  | inr e ↦ rw (e) (latest-last_of r o xs s.1 (Reaches-tail o x xs h))
]

Linked-snoc :
    (p y : Receipt) (xs : List Receipt)
    → Linked p xs
    → y.prev_hash ≡ hash_of (last_of (some p) xs)
    → Linked p (xs ++ y ∷ [])
unfolding hash_of
Linked-snoc p y [] l e = (e, tt)
Linked-snoc p y (x ∷ xs) l e = (l.0, Linked-snoc x y xs l.1 e)

IsChain-snoc :
    (y : Receipt) (xs : List Receipt)
    → IsChain xs
    → y.prev_hash ≡ hash_of (last_of none xs)
    → IsChain (xs ++ y ∷ [])
IsChain-snoc y [] l e = tt
IsChain-snoc y (x ∷ xs) l e = Linked-snoc x y xs l e

of_request-snoc :
    (r : String) (y : Receipt) (xs : List Receipt)
    → of_request r (xs ++ y ∷ [])
      ≡ (if str_eq y.request_id r then of_request r xs ++ y ∷ [] else of_request r xs)
unfolding of_request
of_request-snoc r y [] = refl
of_request-snoc r y (x ∷ xs) = ground (arith, of_request-snoc r y xs)

-- What holds of the receipts of a hub at a time.
pub record IsLog (k : Crypto) (xs : List Receipt) (now : ℕ) : Type 0 where
  pub sorted : Sorted xs
  pub past : All (λ (x : Receipt). x.created_at ≤ now) xs
  pub sealed : All (IsSealed k) xs
  pub chained : (r : String) → IsChain (of_request r xs)

IsChain-tail : (x : Receipt) (xs : List Receipt) → IsChain (x ∷ xs) → IsChain xs
IsChain-tail x [] l = tt
IsChain-tail x (y ∷ ys) l = l.1

All-snoc :
    (P : Receipt → Type 0) (xs : List Receipt) (y : Receipt) → All P xs → P y → All P (xs ++ y ∷ [])
All-snoc P [] y h p = (p, tt)
All-snoc P (x ∷ xs) y h p = (h.0, All-snoc P xs y h.1 p)

Sorted-snoc :
    (xs : List Receipt) (y : Receipt)
    → Sorted xs
    → All (λ (x : Receipt). x.created_at ≤ y.created_at) xs
    → Sorted (xs ++ y ∷ [])
Sorted-snoc [] y s h = (tt, tt)
Sorted-snoc (x ∷ xs) y s h =
    (All-snoc (λ (z : Receipt). x.created_at ≤ z.created_at) xs y s.0 h.0, Sorted-snoc xs y s.1 h.1)

All-later :
    (now then_ : ℕ) (xs : List Receipt)
    → now ≤ then_
    → All (λ (x : Receipt). x.created_at ≤ now) xs
    → All (λ (x : Receipt). x.created_at ≤ then_) xs
All-later now then_ [] l h = tt
All-later now then_ (x ∷ xs) l h =
    let e : x.created_at ≤ now = h.0 in (omega arith, All-later now then_ xs l h.1)

module _ (k : Crypto) where
  pub IsLog-later :
      (xs : List Receipt) (now then_ : ℕ) → now ≤ then_ → IsLog k xs now → IsLog k xs then_
  IsLog-later xs now then_ l v = record {
    sorted = v.sorted;
    past = All-later now then_ xs l v.past;
    sealed = v.sealed;
    chained = v.chained;
  }

  receipt_after-IsChain :
      (xs : List Receipt) (id r : String) (body : Body) (now : ℕ) (q : String)
      → IsLog k xs now
      → IsChain (of_request q (xs ++ receipt_after k xs id r body now ∷ []))
  unfolding receipt_after
  receipt_after-IsChain xs id r body now q v = elim (Bool-cases (str_eq r q)) [
    | inl e ↦
        let same : r ≡ q = (eq_iff r q).0 e in
        rw (of_request-snoc q (receipt_after k xs id r body now) xs, e)
          (IsChain-snoc (receipt_after k xs id r body now) (of_request q xs) (v.chained q) (
            ap (λ o. hash_of (latest o none xs)) same
            ∙ ap hash_of (latest-last_of q none xs v.sorted tt)))
    | inr e ↦ rw (of_request-snoc q (receipt_after k xs id r body now) xs, e) (v.chained q)
  ]

  pub receipt_after-IsLog :
      (xs : List Receipt) (id r : String) (body : Body) (now : ℕ)
      → IsLog k xs now
      → IsLog k (xs ++ receipt_after k xs id r body now ∷ []) now
  receipt_after-IsLog xs id r body now v =
      let y = receipt_after k xs id r body now in
      record {
        sorted = Sorted-snoc xs y v.sorted (unfold receipt_after in v.past);
        past =
            All-snoc (λ (x : Receipt). x.created_at ≤ now) xs y v.past
              (unfold receipt_after in omega arith);
        sealed = All-snoc (IsSealed k) xs y v.sealed (unfold receipt_after in refl);
        chained = λ q. receipt_after-IsChain xs id r body now q v;
      }

  All-least :
      (before : ℕ) (x : Receipt) (xs : List Receipt)
      → before ≤ x.created_at
      → All (λ (y : Receipt). x.created_at ≤ y.created_at) xs
      → All (λ (y : Receipt). before ≤ y.created_at) xs
  All-least before x [] l h = tt
  All-least before x (y ∷ ys) l h =
      let e : x.created_at ≤ y.created_at = h.0 in (omega arith, All-least before x ys l h.1)

  prune_receipts-keeps :
      (before : ℕ) (xs : List Receipt)
      → All (λ (x : Receipt). before ≤ x.created_at) xs
      → prune_receipts before xs ≡ xs
  unfolding prune_receipts
  prune_receipts-keeps before [] h = refl
  prune_receipts-keeps before (x ∷ xs) h =
      let e : before ≤ x.created_at = h.0 in
      let f : ltb x.created_at before ≡ false = ground arith in
      rw (f) (ap (λ ys. x ∷ ys) (prune_receipts-keeps before xs h.1))

  of_request-tail :
      (q : String) (x : Receipt) (xs : List Receipt)
      → IsChain (of_request q (x ∷ xs))
      → IsChain (of_request q xs)
  unfolding of_request
  of_request-tail q x xs h = elim (Bool-cases (str_eq x.request_id q)) [
    | inl e ↦ IsChain-tail x (of_request q xs) (rw (e, of_request) at h)
    | inr e ↦ (rw (e, of_request) at h)
  ]

  -- Old receipts are a first part of the log.
  pub prune_receipts-IsLog :
      (before now : ℕ) (xs : List Receipt) → IsLog k xs now → IsLog k (prune_receipts before xs) now
  unfolding prune_receipts
  prune_receipts-IsLog before now [] v = v
  prune_receipts-IsLog before now (x ∷ xs) v = elim (Bool-cases (ltb x.created_at before)) [
    | inl e ↦ rw (e) (
        prune_receipts-IsLog before now xs (record {
          sorted = v.sorted.1;
          past = v.past.1;
          sealed = v.sealed.1;
          chained = λ q. of_request-tail q x xs (v.chained q);
        }))
    | inr e ↦
        let l : before ≤ x.created_at = ground arith in
        rw (e, prune_receipts-keeps before xs (All-least before x xs l v.sorted.0)) v
  ]
