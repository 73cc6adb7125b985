-- ===== src/Dispatches/Inflight.antt =====
-- src/MeshOrchestrator.ts: the dispatches in flight are those started and not yet finished.
use kovael.Common.{
  Option, ◌+◌, Bool-cases, inl, inr, ◌≤◌, ◌≡◌, refl, sym, ◌∙◌, ap, String, Bool, true, false, not,
  ◌&&◌, ◌||◌, none, some, List, [], ◌∷◌, ◌++◌, arith, length, str_eq, eq_iff,
}
use kovael.Dispatches.{
  Metrics, empty, DispatchEvent, started, attempted, accepted_, succeeded, failed, other, contains,
  add, remove, drop_first, with_active, finish, start, record_event, run,
}

contains-append :
    (x y : String) (ys : List String) → contains x (ys ++ y ∷ []) ≡ (contains x ys || str_eq y x)
unfolding contains
contains-append x y [] = ground arith
contains-append x y (z ∷ ys) = ground (arith, contains-append x y ys)

contains-add :
    (x y : String) (ys : List String) → contains x (add y ys) ≡ (str_eq y x || contains x ys)
unfolding add
contains-add x y ys = ground (arith, eq_iff y x, contains-append x y ys)

pub contains-remove :
    (x y : String) (ys : List String)
    → contains x (remove y ys) ≡ (not (str_eq y x) && contains x ys)
unfolding remove contains
contains-remove x y [] = ground arith
contains-remove x y (z ∷ ys) =
    ground (arith, eq_iff z y, eq_iff z x, eq_iff y x, contains-remove x y ys)

-- Every event that finishes a dispatch names it.
abbrev pub Named : List DispatchEvent → Type 0
Named [] = Unit
Named (succeeded none ∷ es) = true ≡ false
Named (failed none ∷ es) = true ≡ false
Named (succeeded (some r) ∷ es) = (str_eq r "" ≡ false) × Named es
Named (failed (some r) ∷ es) = (str_eq r "" ≡ false) × Named es
Named (_ ∷ es) = Named es

-- Whether a request is in flight after the events, given whether it was before: the last event
-- about it tells.
abbrev pub in_flight : String → Bool → List DispatchEvent → Bool
in_flight x b [] = b
in_flight x b (started (some r) ∷ es) = in_flight x (str_eq r x || b) es
in_flight x b (succeeded (some r) ∷ es) = in_flight x (not (str_eq r x) && b) es
in_flight x b (failed (some r) ∷ es) = in_flight x (not (str_eq r x) && b) es
in_flight x b (_ ∷ es) = in_flight x b es

-- No request stands twice.
abbrev pub Distinct : List String → Type 0
Distinct [] = Unit
Distinct (x ∷ xs) = (contains x xs ≡ false) × Distinct xs

Distinct-append :
    (x : String) (xs : List String) → contains x xs ≡ false → Distinct xs → Distinct (xs ++ x ∷ [])
unfolding contains
Distinct-append x [] h d = (refl, tt)
Distinct-append x (y ∷ ys) h d = (
  ground (arith, contains-append y x ys, eq_iff y x, eq_iff x y, d.0),
  Distinct-append x ys (ground arith) d.1,
)

Distinct-add : (x : String) (xs : List String) → Distinct xs → Distinct (add x xs)
unfolding add
Distinct-add x xs d = elim (Bool-cases (contains x xs)) [
  | inl e ↦ rw (e) d
  | inr e ↦ rw (e) (Distinct-append x xs e d)
]

Distinct-remove : (x : String) (xs : List String) → Distinct xs → Distinct (remove x xs)
unfolding remove
Distinct-remove x [] d = tt
Distinct-remove x (y ∷ ys) d = elim (Bool-cases (str_eq y x)) [
  | inl e ↦ rw (e) (Distinct-remove x ys d.1)
  | inr e ↦ rw (e) (ground (arith, contains-remove y x ys, d.0), Distinct-remove x ys d.1)
]

Distinct-start : (r : Option String) (m : Metrics) → Distinct m.active → Distinct (start m r).active
unfolding start with_active
Distinct-start none m d = d
Distinct-start (some r) m d = elim (Bool-cases (str_eq r "")) [
  | inl e ↦ rw (e) d
  | inr e ↦ rw (e) (Distinct-add r m.active d)
]

Distinct-drop : (xs : List String) → Distinct xs → Distinct (drop_first xs)
unfolding drop_first
Distinct-drop [] d = tt
Distinct-drop (x ∷ xs) d = Distinct-remove x (x ∷ xs) d

Distinct-finish :
    (r : Option String) (m : Metrics) → Distinct m.active → Distinct (finish m r).active
unfolding finish with_active
Distinct-finish none m d = Distinct-drop m.active d
Distinct-finish (some r) m d = elim (Bool-cases (str_eq r "")) [
  | inl e ↦ rw (e) (Distinct-drop m.active d)
  | inr e ↦ rw (e) (Distinct-remove r m.active d)
]

Distinct-record_event :
    (m : Metrics) (e : DispatchEvent) → Distinct m.active → Distinct (record_event m e).active
unfolding record_event
Distinct-record_event m (started r) d = Distinct-start r m d
Distinct-record_event m (attempted n) d = d
Distinct-record_event m accepted_ d = d
Distinct-record_event m (succeeded r) d =
    Distinct-finish r (record m { successes = m.successes + 1 }) d
Distinct-record_event m (failed r) d = Distinct-finish r (record m { failures = m.failures + 1 }) d
Distinct-record_event m other d = d

run-Distinct :
    (es : List DispatchEvent) (m : Metrics) → Distinct m.active → Distinct (run m es).active
unfolding run
run-Distinct [] m d = d
run-Distinct (e ∷ es) m d = run-Distinct es (record_event m e) (Distinct-record_event m e d)

-- What holds of the counters after any events.
pub record IsCounted (m : Metrics) : Type 0 where
  pub inflight_told : m.inflight ≡ length m.active
  pub retries_within : m.retries ≤ m.attempts

record_event-IsCounted :
    (m : Metrics) (e : DispatchEvent) → IsCounted m → IsCounted (record_event m e)
unfolding record_event start finish with_active
record_event-IsCounted m (started none) v = v
record_event-IsCounted m (started (some r)) v = ground arith
record_event-IsCounted m (attempted n) v = ground arith
record_event-IsCounted m accepted_ v = ground arith
record_event-IsCounted m (succeeded none) v = ground arith
record_event-IsCounted m (succeeded (some r)) v = ground arith
record_event-IsCounted m (failed none) v = ground arith
record_event-IsCounted m (failed (some r)) v = ground arith
record_event-IsCounted m other v = v

run-IsCounted : (es : List DispatchEvent) (m : Metrics) → IsCounted m → IsCounted (run m es)
unfolding run
run-IsCounted [] m v = v
run-IsCounted (e ∷ es) m v = run-IsCounted es (record_event m e) (record_event-IsCounted m e v)

abbrev NamedOne : DispatchEvent → Type 0
NamedOne e = Named (e ∷ [])

contains-record_event :
    (e : DispatchEvent) (m : Metrics) (x : String)
    → str_eq x "" ≡ false
    → NamedOne e
    → contains x (record_event m e).active ≡ in_flight x (contains x m.active) (e ∷ [])
unfolding record_event start finish with_active
contains-record_event (started none) m x h n = refl
contains-record_event (started (some r)) m x h n =
    ground (arith, eq_iff r x, eq_iff r "", eq_iff x "", contains-add x r m.active)
contains-record_event (attempted k) m x h n = refl
contains-record_event accepted_ m x h n = refl
contains-record_event (succeeded none) m x h n = cc
contains-record_event (succeeded (some r)) m x h n = ground (arith, contains-remove x r m.active)
contains-record_event (failed none) m x h n = cc
contains-record_event (failed (some r)) m x h n = ground (arith, contains-remove x r m.active)
contains-record_event other m x h n = refl

in_flight-cons :
    (x : String) (b : Bool) (e : DispatchEvent) (es : List DispatchEvent)
    → in_flight x b (e ∷ es) ≡ in_flight x (in_flight x b (e ∷ [])) es
in_flight-cons x b (started none) es = refl
in_flight-cons x b (started (some r)) es = refl
in_flight-cons x b (attempted k) es = refl
in_flight-cons x b accepted_ es = refl
in_flight-cons x b (succeeded none) es = refl
in_flight-cons x b (succeeded (some r)) es = refl
in_flight-cons x b (failed none) es = refl
in_flight-cons x b (failed (some r)) es = refl
in_flight-cons x b other es = refl

Named-cons : (e : DispatchEvent) (es : List DispatchEvent) → Named (e ∷ es) → NamedOne e × Named es
Named-cons (started r) es n = (tt, n)
Named-cons (attempted k) es n = (tt, n)
Named-cons accepted_ es n = (tt, n)
Named-cons (succeeded none) es n = cc
Named-cons (succeeded (some r)) es n = ((n.0, tt), n.1)
Named-cons (failed none) es n = cc
Named-cons (failed (some r)) es n = ((n.0, tt), n.1)
Named-cons other es n = (tt, n)

run-contains :
    (es : List DispatchEvent) (m : Metrics) (x : String)
    → str_eq x "" ≡ false
    → Named es
    → contains x (run m es).active ≡ in_flight x (contains x m.active) es
unfolding run
run-contains [] m x h n = refl
run-contains (e ∷ es) m x h n =
    let (n0, n1) = Named-cons e es n in
    run-contains es (record_event m e) x h n1
    ∙ ap (λ b. in_flight x b es) (contains-record_event e m x h n0)
    ∙ sym (in_flight-cons x (contains x m.active) e es)

-- Where each event that finishes a dispatch names it, a request counts as in flight exactly if the
-- last event about it started it; these requests stand in the set once each, and the gauge is their
-- number; and there are no more retries than attempts.
pub run-in_flight :
    (es : List DispatchEvent) (x : String)
    → str_eq x "" ≡ false
    → Named es
    → (contains x (run empty es).active ≡ in_flight x false es)
      × Distinct (run empty es).active
      × IsCounted (run empty es)
unfolding contains
run-in_flight es x h n = (
  run-contains es empty x h n,
  run-Distinct es empty tt,
  run-IsCounted es empty (record { inflight_told = refl; retries_within = omega arith }),
)
