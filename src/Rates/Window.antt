-- ===== src/Rates/Window.antt =====
-- src/services/RateLimitTracker.ts: the list kept for an agent answers for its whole history.
use kovael.Common.{
  ℕ, ◌≤◌, ◌≡◌, refl, ◌∙◌, sym, ap, String, not, ◌&&◌, List, [], ◌∷◌, ◌++◌, arith, str_eq, eq_iff,
  ltb, length, or_default, if◌then◌else◌, Option-cases, Bool-cases, inl, inr,
}
use kovael.Table.{get, set}
use kovael.Table.Laws.{get-set}
use kovael.Rates.Cutting.{
  in_window, Before, Before-later, Before-append, prune-prune, in_window-append, prune-append,
  Before-prune,
}
use kovael.Rates.{
  Config, Tracker, Call, dispatches, asks, reports, looks, create, prune, cut, provider_blocks,
  can_dispatch, snapshot, announce, record_dispatch, update_provider_limit, step, run,
}

-- The dispatches of an agent among the calls, oldest first, after those of an earlier history.
abbrev pub history : String → List ℕ → List (ℕ × Call) → List ℕ
history a past [] = past
history a past ((now, dispatches b) ∷ cs) =
    history a (if str_eq b a then past ++ now ∷ [] else past) cs
history a past (_ ∷ cs) = history a past cs

-- The clock does not run backwards.
abbrev pub Ticks : ℕ → List (ℕ × Call) → ℕ → Type 0
Ticks from [] until = from ≤ until
Ticks from ((now, c) ∷ cs) until = (from ≤ now) × Ticks now cs until

kept : Tracker → String → List ℕ
kept t a = or_default (get a t.windows) []

-- The list kept for an agent stands for its history at every time from now on.
record Tells (t : Tracker) (a : String) (now : ℕ) (past : List ℕ) : Type 0 where
  before : Before now (kept t a)
  told :
      (at : ℕ) → now ≤ at → prune t.cfg.window_ms at (kept t a) ≡ in_window t.cfg.window_ms at past

kept-cut :
    (t : Tracker) (a b : String) (now : ℕ)
    → kept (cut t a now).0 b
      ≡ (if str_eq a b then prune t.cfg.window_ms now (kept t b) else kept t b)
unfolding cut kept prune
kept-cut t a b now = elim (Option-cases (get a t.windows)) [
  | inl e ↦ rw (e, cut) (ground (arith, eq_iff a b))
  | inr (xs, e) ↦
      rw (e, cut) (ground (arith, eq_iff a b, get-set a b (prune t.cfg.window_ms now xs) t.windows))
]

cut-cfg : (t : Tracker) (a : String) (now : ℕ) → (cut t a now).0.cfg ≡ t.cfg
unfolding cut
cut-cfg t a now = ground arith

cut-kept :
    (t : Tracker) (a : String) (now : ℕ) → (cut t a now).1 ≡ prune t.cfg.window_ms now (kept t a)
unfolding cut kept prune
cut-kept t a now = ground arith

Tells-later :
    (t : Tracker) (a : String) (s now : ℕ) (past : List ℕ)
    → s ≤ now
    → Tells t a s past
    → Tells t a now past
Tells-later t a s now past h v = record {
  before = Before-later (kept t a) s now h v.before;
  told = λ at l. v.told at (omega (arith, h, l));
}

cut-Tells :
    (t : Tracker) (a b : String) (now : ℕ) (past : List ℕ)
    → Tells t b now past
    → Tells (cut t a now).0 b now past
cut-Tells t a b now past v = elim (Bool-cases (str_eq a b)) [
  | inl e ↦ record {
    before = rw (kept-cut t a b now, e) (Before-prune t.cfg.window_ms now now (kept t b) v.before);
    told = λ at l.
        rw (kept-cut t a b now, e, cut-cfg t a now)
          (prune-prune t.cfg.window_ms now at (kept t b) l ∙ v.told at l);
  }
  | inr e ↦ record {
    before = rw (kept-cut t a b now, e) v.before;
    told = λ at l. rw (kept-cut t a b now, e, cut-cfg t a now) (v.told at l);
  }
]

can_dispatch-Tells :
    (t : Tracker) (a b : String) (now : ℕ) (past : List ℕ)
    → Tells t b now past
    → Tells (can_dispatch t a now).0 b now past
unfolding can_dispatch
can_dispatch-Tells t a b now past v = ground (arith, v, cut-Tells t a b now past v)

announce-Tells :
    (t : Tracker) (a b : String) (now : ℕ) (past : List ℕ)
    → Tells t b now past
    → Tells (announce t a now) b now past
unfolding announce snapshot kept
announce-Tells t a b now past v =
    let w = can_dispatch-Tells (cut t a now).0 a b now past (cut-Tells t a b now past v) in
    record { before = w.before; told = w.told }

-- The tracker with the dispatch recorded, before the update is announced.
abbrev stored : Tracker → String → ℕ → Tracker
stored t a now = record t {
  windows = set a (prune t.cfg.window_ms now (kept t a ++ now ∷ [])) t.windows;
}

kept-stored :
    (t : Tracker) (a b : String) (now : ℕ)
    → kept (stored t a now) b
      ≡ (if str_eq a b then prune t.cfg.window_ms now (kept t b ++ now ∷ []) else kept t b)
unfolding kept
kept-stored t a b now =
    ground
      (arith, eq_iff a b, get-set a b (prune t.cfg.window_ms now (kept t a ++ now ∷ [])) t.windows)

stored-Tells :
    (t : Tracker) (a b : String) (now : ℕ) (past : List ℕ)
    → Tells t b now past
    → Tells (stored t a now) b now (if str_eq a b then past ++ now ∷ [] else past)
stored-Tells t a b now past v =
    let w = t.cfg.window_ms in
    elim (Bool-cases (str_eq a b)) [
      | inl e ↦ rw e (record {
        before =
            rw (kept-stored t a b now, e)
              (Before-prune w now now (kept t b ++ now ∷ [])
                (Before-append (kept t b) now v.before));
        told = λ at l.
            rw (kept-stored t a b now, e)
              (prune-prune w now at (kept t b ++ now ∷ []) l
                ∙ prune-append w at now (kept t b) v.before
                ∙ ap (λ xs. xs ++ in_window w at (now ∷ [])) (v.told at l)
                ∙ sym (in_window-append w at now past));
      })
      | inr e ↦ rw e (record {
        before = rw (kept-stored t a b now, e) v.before;
        told = λ at l. rw (kept-stored t a b now, e) (v.told at l);
      })
    ]

step-Tells :
    (t : Tracker) (b : String) (now : ℕ) (c : Call) (past : List ℕ)
    → Tells t b now past
    → Tells (step t (now, c)) b now (history b past ((now, c) ∷ []))
unfolding step record_dispatch update_provider_limit kept snapshot
step-Tells t b now (dispatches a) past v =
    announce-Tells (stored t a now) a b now (if str_eq a b then past ++ now ∷ [] else past)
      (stored-Tells t a b now past v)
step-Tells t b now (asks a) past v = can_dispatch-Tells t a b now past v
step-Tells t b now (reports a remaining reset) past v =
    announce-Tells
      (record t {
        provider_limits =
            set a (record { remaining = remaining; reset_at_ms = reset }) t.provider_limits;
      })
      a b now past (record { before = v.before; told = v.told })
step-Tells t b now (looks a) past v =
    can_dispatch-Tells (cut t a now).0 a b now past (cut-Tells t a b now past v)

step-cfg : (t : Tracker) (c : ℕ × Call) → (step t c).cfg ≡ t.cfg
unfolding step record_dispatch update_provider_limit snapshot announce can_dispatch cut
step-cfg t c = ground arith

history-split :
    (b : String) (past : List ℕ) (c : ℕ × Call) (cs : List (ℕ × Call))
    → history b past (c ∷ cs) ≡ history b (history b past (c ∷ [])) cs
history-split b past (now, dispatches a) cs = refl
history-split b past (now, asks a) cs = refl
history-split b past (now, reports a remaining reset) cs = refl
history-split b past (now, looks a) cs = refl

run-Tells :
    (cs : List (ℕ × Call)) (t : Tracker) (b : String) (from now : ℕ) (past : List ℕ)
    → Ticks from cs now
    → Tells t b from past
    → Tells (run t cs) b now (history b past cs)
unfolding run
run-Tells [] t b from now past k v = Tells-later t b from now past k v
run-Tells ((s, c) ∷ cs) t b from now past k v = rw (history-split b past (s, c) cs) (
    run-Tells cs (step t (s, c)) b s now (history b past ((s, c) ∷ [])) k.1
      (step-Tells t b s c past (Tells-later t b from s past k.0 v)))

run-cfg : (cs : List (ℕ × Call)) (t : Tracker) → (run t cs).cfg ≡ t.cfg
unfolding run
run-cfg [] t = refl
run-cfg (c ∷ cs) t = run-cfg cs (step t c) ∙ step-cfg t c

-- With a clock that does not run backwards, and after any calls on a new tracker, an agent may
-- dispatch exactly when no provider limit holds it back and fewer of all the dispatches recorded
-- for it are within the window than the maximum.
pub can_dispatch-window :
    (cfg : Config) (cs : List (ℕ × Call)) (a : String) (now : ℕ)
    → Ticks 0 cs now
    → (can_dispatch (run (create cfg) cs) a now).1 ≡ (
        not (provider_blocks (run (create cfg) cs) a now)
        && ltb (length (in_window cfg.window_ms now (history a [] cs))) cfg.max_per_window)
unfolding can_dispatch kept get
can_dispatch-window cfg cs a now k =
    let t = run (create cfg) cs in
    let c : t.cfg ≡ cfg = run-cfg cs (create cfg) in
    let v = run-Tells cs (create cfg) a 0 now [] k (record { before = tt; told = λ at l. refl }) in
    let e : (cut t a now).1 ≡ in_window t.cfg.window_ms now (history a [] cs) =
      cut-kept t a now ∙ v.told now (omega arith) in
    let f = ap (λ x. in_window x.window_ms now (history a [] cs)) c in
    ground (arith, ap length (e ∙ f), ap (λ x. x.max_per_window) c)
