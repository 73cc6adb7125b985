-- ===== src/CycleLog/Open.antt =====
-- src/services/CycleLog.ts: which cycles a restart finds open.
use kovael.Common.{
  ◌||◌, if◌then◌else◌, ◌≡◌, refl, sym, ap, ◌∙◌, String, Bool, true, false, not, ◌&&◌, some, List,
  [], ◌∷◌, map, arith, Bool-cases, inl, inr, str_eq, str_eq_self, eq_iff,
}
use kovael.Dispatches.{contains, remove}
use kovael.Dispatches.Inflight.{contains-remove}
use kovael.CycleLog.{
  Log, Event, Kind, cycle_started, phase_transition, task_claimed, task_running, dispatch_sent,
  dispatch_reply, retry_scheduled, retry_exhausted, verifier_scored, stop_decision, receipt_issued,
  cycle_sealed, cycle_failed, of_cycle, trail, insert_by_seq, order_by_seq,
}
use kovael.CycleLog.Replay.{
  OpenCycle, any_row, is_terminal, is_closed, cycle_ids, summary, open_only, replay_open_cycles,
}

abbrev pub every : Kind → Bool
every k = true

-- The cycle has a row.
abbrev pub has_row : String → List Event → Bool
has_row c rows = any_row every c rows

contains-cycle_ids : (c : String) (rows : List Event) → contains c (cycle_ids rows) ≡ has_row c rows
unfolding contains cycle_ids any_row
contains-cycle_ids c [] = refl
contains-cycle_ids c (e ∷ es) =
    ground (arith, contains-cycle_ids c es, contains-remove c e.cycle_id (cycle_ids es))

abbrev pub ids_of : List OpenCycle → List String
ids_of = map (λ (o : OpenCycle). o.cycle_id)

abbrev is_empty : List Event → Bool
is_empty [] = true
is_empty (e ∷ es) = false

insert-is_empty : (e : Event) (es : List Event) → is_empty (insert_by_seq e es) ≡ false
unfolding insert_by_seq
insert-is_empty e [] = refl
insert-is_empty e (x ∷ xs) = ground arith

of_cycle-is_empty :
    (c : String) (rows : List Event) → is_empty (of_cycle c rows) ≡ not (has_row c rows)
unfolding of_cycle any_row
of_cycle-is_empty c [] = refl
of_cycle-is_empty c (e ∷ es) = ground (arith, of_cycle-is_empty c es)

order-is_empty : (es : List Event) → is_empty (order_by_seq es) ≡ is_empty es
unfolding order_by_seq
order-is_empty [] = refl
order-is_empty (e ∷ es) = insert-is_empty e (order_by_seq es)

summary-some :
    (c : String) (es : List Event)
    → is_empty es ≡ false
    → (s : OpenCycle) × (summary c es ≡ some s) × (s.cycle_id ≡ c)
unfolding summary
summary-some c [] h = cc
summary-some c (e ∷ es) h = (_, refl, refl)

trail-some :
    (l : Log) (c : String)
    → has_row c l.rows ≡ true
    → (s : OpenCycle) × (summary c (trail l c) ≡ some s) × (s.cycle_id ≡ c)
unfolding trail
trail-some l c h =
    summary-some c (order_by_seq (of_cycle c l.rows))
      (order-is_empty (of_cycle c l.rows) ∙ of_cycle-is_empty c l.rows ∙ ap not h)

-- Each of the cycles has a row.
abbrev Known : List Event → List String → Type 0
Known rows [] = Unit
Known rows (c ∷ cs) = (has_row c rows ≡ true) × Known rows cs

contains-open_only :
    (l : Log) (c : String) (cs : List String)
    → Known l.rows cs
    → contains c (ids_of (open_only l cs)) ≡ (contains c cs && not (is_closed l.rows c))
unfolding open_only contains
contains-open_only l c [] k = refl
contains-open_only l c (d ∷ cs) k =
    let rest = contains-open_only l c cs k.1 in
    elim (Bool-cases (is_closed l.rows d)) [
      | inl e ↦
          rw (e, rest)
            (elim (Bool-cases (str_eq d c)) [
              | inl f ↦
                  let g : is_closed l.rows c ≡ true =
                    ap (is_closed l.rows) (sym ((eq_iff d c).0 f)) ∙ e in
                  ground arith
              | inr f ↦ rw (f) refl
            ])
      | inr e ↦
          let (s, f, g) = trail-some l d k.0 in
          rw (e, f, g, rest)
            (elim (Bool-cases (str_eq d c)) [
              | inl m ↦
                  let n : is_closed l.rows c ≡ false =
                    ap (is_closed l.rows) (sym ((eq_iff d c).0 m)) ∙ e in
                  ground arith
              | inr m ↦ rw (m) refl
            ])
    ]

Known-later :
    (e : Event) (rows : List Event) (cs : List String) → Known rows cs → Known (e ∷ rows) cs
unfolding any_row
Known-later e rows [] k = tt
Known-later e rows (c ∷ cs) k = (ground (arith, k.0), Known-later e rows cs k.1)

Known-remove :
    (c : String) (rows : List Event) (cs : List String) → Known rows cs → Known rows (remove c cs)
unfolding remove
Known-remove c rows [] k = tt
Known-remove c rows (d ∷ cs) k = elim (Bool-cases (str_eq d c)) [
  | inl e ↦ rw (e) (Known-remove c rows cs k.1)
  | inr e ↦ rw (e) (k.0, Known-remove c rows cs k.1)
]

Known-cycle_ids : (rows : List Event) → Known rows (cycle_ids rows)
unfolding cycle_ids any_row
Known-cycle_ids [] = tt
Known-cycle_ids (e ∷ es) = (
  rw (str_eq_self e.cycle_id) refl,
  Known-later e es (remove e.cycle_id (cycle_ids es))
      (Known-remove e.cycle_id es (cycle_ids es) (Known-cycle_ids es)),
)

-- The kinds of the rows of a cycle.
abbrev pub kinds_of : String → List Event → List Kind
kinds_of c [] = []
kinds_of c (e ∷ es) =
    let rest = kinds_of c es in if str_eq e.cycle_id c then e.kind ∷ rest else rest

-- A cycle with these rows is over: one of them seals or fails it.
abbrev pub is_over : List Kind → Bool
is_over [] = false
is_over (cycle_sealed ∷ ks) = true
is_over (cycle_failed ∷ ks) = true
is_over (_ ∷ ks) = is_over ks

-- A cycle with these rows is open: it has some, and is not over.
abbrev pub is_open : List Kind → Bool
is_open [] = false
is_open (k ∷ ks) = not (is_over (k ∷ ks))

is_over-cons : (k : Kind) (ks : List Kind) → is_over (k ∷ ks) ≡ (is_terminal k || is_over ks)
unfolding is_terminal
is_over-cons cycle_started ks = refl
is_over-cons phase_transition ks = refl
is_over-cons task_claimed ks = refl
is_over-cons task_running ks = refl
is_over-cons dispatch_sent ks = refl
is_over-cons dispatch_reply ks = refl
is_over-cons retry_scheduled ks = refl
is_over-cons retry_exhausted ks = refl
is_over-cons verifier_scored ks = refl
is_over-cons stop_decision ks = refl
is_over-cons receipt_issued ks = refl
is_over-cons cycle_sealed ks = refl
is_over-cons cycle_failed ks = refl

is_closed-is_over : (rows : List Event) (c : String) → is_closed rows c ≡ is_over (kinds_of c rows)
unfolding is_closed any_row
is_closed-is_over [] c = refl
is_closed-is_over (e ∷ es) c =
    ground (arith, is_closed-is_over es c, is_over-cons e.kind (kinds_of c es))

abbrev has_kind : List Kind → Bool
has_kind [] = false
has_kind (k ∷ ks) = true

has_row-has_kind : (rows : List Event) (c : String) → has_row c rows ≡ has_kind (kinds_of c rows)
unfolding any_row
has_row-has_kind [] c = refl
has_row-has_kind (e ∷ es) c = ground (arith, has_row-has_kind es c)

is_open-split : (ks : List Kind) → (has_kind ks && not (is_over ks)) ≡ is_open ks
is_open-split [] = refl
is_open-split (k ∷ ks) = refl

-- A restart finds open exactly the cycles that have a row and none that seals or fails them.
pub replay_open_cycles-is_open :
    (l : Log) (c : String)
    → contains c (ids_of (replay_open_cycles l)) ≡ is_open (kinds_of c l.rows)
unfolding replay_open_cycles
replay_open_cycles-is_open l c =
    contains-open_only l c (cycle_ids l.rows) (Known-cycle_ids l.rows)
    ∙ rw (contains-cycle_ids c l.rows, has_row-has_kind l.rows c, is_closed-is_over l.rows c)
        (is_open-split (kinds_of c l.rows))
