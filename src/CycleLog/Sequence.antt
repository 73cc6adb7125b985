-- ===== src/CycleLog/Sequence.antt =====
-- src/services/CycleLog.ts: the sequence numbers of a cycle, across restarts and sealing.
use kovael.Common.{
  ℕ, zero, suc, ◌+◌, ◌≡◌, refl, ap, ◌∙◌, sym, String, some, List, [], ◌∷◌, ◌++◌, arith, map, max,
  length-map, length, or_default, if◌then◌else◌, str_eq, str_eq_self, eq_iff, Bool-cases, inl, inr,
}
use mathlib.Core.List.{map-append, append-nil}
use kovael.Table.{Table, get}
use kovael.Table.Laws.{get-set}
use kovael.CycleLog.{
  Kind, Event, Log, Hashing, count_row, preload, open_log, next_seq, append, of_cycle,
  insert_by_seq, order_by_seq, trail, seal_cycle, seal_events, cycle_sealed, Act, appends, restarts,
  run, step, merkle_root,
}
use native.Mathlib.Nat.{add-zero}

abbrev pub seqs : List Event → List ℕ
seqs = map (λ e. e.seq)

-- s, s + 1, …, s + n - 1
abbrev pub upto : ℕ → ℕ → List ℕ
upto s zero = []
upto s (suc n) = s ∷ upto (s + 1) n

upto_snoc : (s n : ℕ) → upto s n ++ (s + n) ∷ [] ≡ upto s (suc n)
upto_snoc s zero = rw (add-zero s)
upto_snoc s (suc n) =
    let e : s + suc n ≡ s + 1 + n = omega arith in rw e (ap (◌∷◌ s) (upto_snoc (s + 1) n))

length-upto : (s n : ℕ) → length (upto s n) ≡ n
length-upto s zero = refl
length-upto s (suc n) = ap suc (length-upto (s + 1) n)

upto_next : (n : ℕ) → upto 0 n ++ n ∷ [] ≡ upto 0 (n + 1)
upto_next n =
    let z : 0 + n ≡ n = omega arith in
    let o : suc n ≡ n + 1 = omega arith in
    ap (λ m. upto 0 n ++ m ∷ []) (sym z) ∙ upto_snoc 0 n ∙ ap (upto 0) o

-- The rows of every cycle are numbered from zero without a gap, and its counter is the next number.
pub IsGapless : Log → Type 0
IsGapless l = (c : String) → seqs (of_cycle c l.rows) ≡ upto 0 (next_seq l c)

of_cycle-append :
    (c : String) (es fs : List Event) → of_cycle c (es ++ fs) ≡ of_cycle c es ++ of_cycle c fs
unfolding of_cycle
of_cycle-append c [] fs = refl
of_cycle-append c (e ∷ es) fs = ground (arith, of_cycle-append c es fs)

append-IsGapless :
    (l : Log) (c : String) (k : Kind) (actor payload : String) (now : ℕ)
    → IsGapless l
    → IsGapless (append l c k actor payload now).0
unfolding IsGapless append next_seq of_cycle
append-IsGapless l c k actor payload now v j =
    let e = (append l c k actor payload now).1 in
    rw (of_cycle-append j l.rows (e ∷ []), get-set c j (e.seq + 1) l.seq_counters)
      (elim (Bool-cases (str_eq c j)) [
        | inl own ↦
            let same : next_seq l j ≡ next_seq l c = ap (next_seq l) (sym ((eq_iff c j).0 own)) in
            rw own (
              map-append _ (of_cycle j l.rows) (e ∷ [])
              ∙ ap (λ s. s ++ e.seq ∷ []) (v j ∙ ap (upto 0) same)
              ∙ upto_next (next_seq l c))
        | inr other ↦ rw (other, append-nil (of_cycle j l.rows)) (v j)
      ])

-- The order in which rows were inserted is the order of their numbers.
order-upto : (es : List Event) (s n : ℕ) → seqs es ≡ upto s n → order_by_seq es ≡ es
unfolding order_by_seq
order-upto [] s n e = refl
order-upto (x ∷ xs) s zero e = cc
order-upto (x ∷ []) s (suc n) e = refl
order-upto (x ∷ y ∷ ys) s (suc zero) e = cc
order-upto (x ∷ y ∷ ys) s (suc (suc n)) e =
    let rest = order-upto (y ∷ ys) (s + 1) (suc n) (ground arith) in
    ap (insert_by_seq x) rest ∙ ground arith

trail-of_cycle : (l : Log) (c : String) → IsGapless l → trail l c ≡ of_cycle c l.rows
unfolding IsGapless trail
trail-of_cycle l c v = order-upto (of_cycle c l.rows) 0 (next_seq l c) (v c)

-- One past the largest number of a list, or n.
abbrev past : ℕ → List ℕ → ℕ
past n [] = n
past n (s ∷ ss) = past (max n (s + 1)) ss

get-count_row :
    (t : Table ℕ) (e : Event) (c : String)
    → or_default (get c (count_row t e)) 0 ≡ (
        if str_eq e.cycle_id c
        then max (or_default (get c t) 0) (e.seq + 1)
        else or_default (get c t) 0)
unfolding count_row
get-count_row t e c =
    let n = max (or_default (get e.cycle_id t) 0) (e.seq + 1) in
    ground (arith, get-set e.cycle_id c n t, eq_iff e.cycle_id c)

preload-past :
    (es : List Event) (t : Table ℕ) (c : String)
    → or_default (get c (preload t es)) 0 ≡ past (or_default (get c t) 0) (seqs (of_cycle c es))
unfolding preload of_cycle
preload-past [] t c = refl
preload-past (e ∷ es) t c = elim (Bool-cases (str_eq e.cycle_id c)) [
  | inl own ↦
      rw (own, of_cycle)
        (preload-past es (count_row t e) c
          ∙ ap (λ n. past n (seqs (of_cycle c es))) (get-count_row t e c ∙ rw own refl))
  | inr other ↦
      rw (other, of_cycle)
        (preload-past es (count_row t e) c
          ∙ ap (λ n. past n (seqs (of_cycle c es))) (get-count_row t e c ∙ rw other refl))
]

past-upto : (n s : ℕ) → past s (upto s n) ≡ s + n
past-upto zero s = omega arith
past-upto (suc n) s =
    ap (λ m. past m (upto (s + 1) n)) (omega arith) ∙ past-upto n (s + 1) ∙ omega arith

-- A log that is opened again on its own rows goes on with the same numbers.
pub next_seq-open_log :
    (l : Log) (c : String) → IsGapless l → next_seq (open_log l.rows) c ≡ next_seq l c
unfolding IsGapless next_seq open_log get
next_seq-open_log l c v =
    preload-past l.rows [] c ∙ ap (past 0) (v c) ∙ past-upto (next_seq l c) 0 ∙ omega arith

run-IsGapless : (acts : List Act) (l : Log) → IsGapless l → IsGapless (run l acts)
unfolding run step IsGapless
run-IsGapless [] l v = v
run-IsGapless (appends c k a p now ∷ acts) l v =
    run-IsGapless acts (append l c k a p now).0 (append-IsGapless l c k a p now v)
run-IsGapless (restarts ∷ acts) l v =
    run-IsGapless acts (open_log l.rows) (λ c. v c ∙ ap (upto 0) (sym (next_seq-open_log l c v)))

pub created-IsGapless : (acts : List Act) → IsGapless (run (open_log []) acts)
unfolding IsGapless open_log preload next_seq get of_cycle
created-IsGapless acts = run-IsGapless acts (open_log []) (λ j. refl)

-- After any writes and restarts, the trail of a cycle is its rows in the order of writing, numbered
-- from zero without a gap.
pub run-trail :
    (acts : List Act) (c : String)
    → let l = run (open_log []) acts in
      (trail l c ≡ of_cycle c l.rows) × (seqs (trail l c) ≡ upto 0 (length (trail l c)))
unfolding IsGapless
run-trail acts c =
    let l = run (open_log []) acts in
    let v = created-IsGapless acts in
    let t = trail-of_cycle l c v in
    let n : length (of_cycle c l.rows) ≡ next_seq l c =
      sym (length-map (λ (e : Event). e.seq) (of_cycle c l.rows))
      ∙ ap length (v c)
      ∙ length-upto 0 (next_seq l c) in
    (t, ap seqs t ∙ v c ∙ ap (upto 0) (sym n ∙ ap length (sym t)))

append-trail :
    (l : Log) (c : String) (k : Kind) (actor payload : String) (now : ℕ)
    → IsGapless l
    → let (l', e) = append l c k actor payload now in trail l' c ≡ trail l c ++ e ∷ []
unfolding append of_cycle
append-trail l c k actor payload now v =
    let e = (append l c k actor payload now).1 in
    trail-of_cycle (append l c k actor payload now).0 c (append-IsGapless l c k actor payload now v)
    ∙ of_cycle-append c l.rows (e ∷ [])
    ∙ rw (str_eq_self c) (ap (λ t. t ++ e ∷ []) (sym (trail-of_cycle l c v)))

-- Sealing succeeds exactly on a cycle with events; the receipt counts them and holds their root, and
-- the log gains one event, the last of the cycle.
pub seal_cycle-trail :
    (h : Hashing) (write : h.Digest → ℕ → String) (l : Log) (c : String) (now : ℕ) (e : Event)
    (es : List Event)
    → IsGapless l
    → trail l c ≡ e ∷ es
    → let root = merkle_root h.pair h.of_empty (map h.leaf (e ∷ es)) in
      let n = length (e ∷ es) in
      let (l', sealed) = append l c cycle_sealed "orchestrator" (write root n) now in
      (seal_cycle h write l c now
        ≡ some (l', record { cycle_id = c; merkle_root = root; event_count = n; sealed_at = now }))
      × (trail l' c ≡ e ∷ es ++ sealed ∷ [])
unfolding seal_cycle
seal_cycle-trail h write l c now e es v t =
    let text = write (merkle_root h.pair h.of_empty (map h.leaf (e ∷ es))) (length (e ∷ es)) in
    let event = (append l c cycle_sealed "orchestrator" text now).1 in
    (
      ap (seal_events h write l c now) t,
      append-trail l c cycle_sealed "orchestrator" text now v ∙ ap (λ x. x ++ event ∷ []) t,
    )
