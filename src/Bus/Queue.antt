-- ===== src/Bus/Queue.antt =====
-- src/services/ConversationBus.ts: the queue of speakers in `convene`, and that only the topic's
-- participants stand in it.
use kovael.Common.{
  ℕ, ◌≡◌, refl, sym, subst, String, true, not, ◌&&◌, List, [], ◌∷◌, ◌++◌, reverse, arith, length,
  ltb, ◌==◌, All, Bool-cases, inl, inr, str_eq, str_eq_self, if◌then◌else◌,
}
use mathlib.Core.List.{reverse-cons}
use kovael.Dispatches.{contains, add}
use kovael.Bus.{parse_mentions}

abbrev pub max_turns : ℕ
max_turns = 6

unfoldable pub valid_mentions : List String → String → List String → List String
valid_mentions participants a [] = []
valid_mentions participants a (m ∷ ms) =
    let rest = valid_mentions participants a ms in
    if contains m participants && not (str_eq m a) then m ∷ rest else rest

-- `indexOf` and `splice`: the first one goes.
unfoldable pub take_out : String → List String → List String
take_out x [] = []
take_out x (y ∷ ys) = let rest = take_out x ys in if str_eq y x then ys else y ∷ rest

unfoldable pub move_front : List String → List String → List String
unfolding take_out
move_front [] queue = queue
move_front (m ∷ ms) queue = move_front ms (m ∷ take_out m queue)

unfoldable pub first_other : String → List String → List String
first_other a [] = []
first_other a (p ∷ ps) =
    let rest = first_other a ps in if str_eq p a then rest else if str_eq p "" then [] else p ∷ []

-- The queue after a reply: those mentioned go first, and an empty queue gets another participant.
unfoldable pub next_queue : List String → String → String → ℕ → List String → List String
unfolding valid_mentions move_front first_other
next_queue participants a text turns queue =
    let q = move_front (reverse (valid_mentions participants a (parse_mentions text))) queue in
    if length q == 0 && ltb turns max_turns then first_other a participants else q

-- A set of the distinct participants: `new Set(participants)`.
unfoldable pub distinct : List String → List String → List String
unfolding add
distinct seen [] = seen
distinct seen (p ∷ ps) = distinct (add p seen) ps

-- Everyone in the queue is a participant.
abbrev pub Seated : List String → List String → Type 0
Seated ps = All (λ q. contains q ps ≡ true)

pub All-append {ℓ κ} :
    {A : Type ℓ} (P : A → Type κ) (xs ys : List A) → All P xs → All P ys → All P (xs ++ ys)
All-append P [] ys h k = k
All-append P (x ∷ xs) ys h k = (h.0, All-append P xs ys h.1 k)

module _ (ps : List String) where
  take_out-Seated : (x : String) (q : List String) → Seated ps q → Seated ps (take_out x q)
  unfolding take_out
  take_out-Seated x [] h = tt
  take_out-Seated x (y ∷ q) h = elim (Bool-cases (str_eq y x)) [
    | inl e ↦ rw (e) h.1
    | inr e ↦ rw (e) (h.0, take_out-Seated x q h.1)
  ]

  move_front-Seated :
      (ms q : List String) → Seated ps ms → Seated ps q → Seated ps (move_front ms q)
  unfolding move_front
  move_front-Seated [] q hm h = h
  move_front-Seated (m ∷ ms) q hm h =
      move_front-Seated ms (m ∷ take_out m q) hm.1 (hm.0, take_out-Seated m q h)

  valid_mentions-Seated : (a : String) (ms : List String) → Seated ps (valid_mentions ps a ms)
  unfolding valid_mentions
  valid_mentions-Seated a [] = tt
  valid_mentions-Seated a (m ∷ ms) = elim (Bool-cases (contains m ps)) [
    | inl e ↦ elim (Bool-cases (str_eq m a)) [
      | inl f ↦ rw (e, f) (valid_mentions-Seated a ms)
      | inr f ↦ rw (e, f) (e, valid_mentions-Seated a ms)
    ]
    | inr e ↦ rw (e) (valid_mentions-Seated a ms)
  ]

  Seated-reverse : (xs : List String) → Seated ps xs → Seated ps (reverse xs)
  Seated-reverse [] h = tt
  Seated-reverse (x ∷ xs) h =
      subst (Seated ps) (sym (reverse-cons x xs))
        (All-append _ (reverse xs) (x ∷ []) (Seated-reverse xs h.1) (h.0, tt))

  first_other-Seated : (a : String) (xs : List String) → Seated ps xs → Seated ps (first_other a xs)
  unfolding first_other
  first_other-Seated a [] h = tt
  first_other-Seated a (x ∷ xs) h = elim (Bool-cases (str_eq x a)) [
    | inl e ↦ rw (e) (first_other-Seated a xs h.1)
    | inr e ↦ elim (Bool-cases (str_eq x "")) [ inl f ↦ rw (e, f) tt | inr f ↦ rw (e, f) (h.0, tt) ]
  ]

  pub next_queue-Seated :
      (a text : String) (turns : ℕ) (q : List String)
      → Seated ps ps
      → Seated ps q
      → Seated ps (next_queue ps a text turns q)
  unfolding next_queue
  next_queue-Seated a text turns q all h =
      let moved = move_front (reverse (valid_mentions ps a (parse_mentions text))) q in
      let k : Seated ps moved =
        move_front-Seated _ q (Seated-reverse _ (valid_mentions-Seated a (parse_mentions text)))
          h in
      elim (Bool-cases (length moved == 0 && ltb turns max_turns)) [
        | inl e ↦ rw (e) (first_other-Seated a ps all)
        | inr e ↦ rw (e) k
      ]

contains-skip :
    (x y : String) (ys : List String) → contains x ys ≡ true → contains x (y ∷ ys) ≡ true
unfolding contains
contains-skip x y ys h = ground arith

Seated-skip : (y : String) (ys xs : List String) → Seated ys xs → Seated (y ∷ ys) xs
Seated-skip y ys [] h = tt
Seated-skip y ys (x ∷ xs) h = (contains-skip x y ys h.0, Seated-skip y ys xs h.1)

pub Seated-all : (ps : List String) → Seated ps ps
unfolding contains
Seated-all [] = tt
Seated-all (p ∷ ps) = (rw (str_eq_self p) refl, Seated-skip p ps ps (Seated-all ps))
