-- ===== src/Bridge/Loop.antt =====
-- src/MevBridge.ts: every way that a cycle can end.
use kovael.Common.{
  ℕ, [], ◌++◌, sym, or_default, ◌≡◌, refl, ◌∙◌, ap, inl, inr, String, true, false, Option, none,
  some, List, ◌∷◌, arith, Option-cases, take,
}
use kovael.Triad.{
  Phase, succeeded, is_terminal, trail, transition, Cycle, start, next_phases, includes,
  can_transition, same, event_of, terminal, Request, preparing_context, dispatch_to_architect,
  architect_streaming, dispatch_to_operator, operator_executing, dispatch_to_verifier,
  verifier_auditing, issuing_receipt,
}
use kovael.Triad.Trail.{pipeline, phases, TrailOf, TrailOf-next, phases-snoc}
use kovael.Bridge.{
  Bridge, Message, Receipt, Routing, verified, route_architect, note_dispatch, shard_context,
  ask_rates,
}
use kovael.Bridge.Execute.{
  not_begun, caught, heard, in_prompt, in_span, in_announce, in_catch, Outside, Stage, in_architect,
  in_operator, in_verifier, in_receipt, in_store, Attempt, done, thrown, Executed, advance, stage,
  attempt, verifier, operator, last_phase, status_of, receipt_of, fail_cycle, settle, conclude,
  verify, operate, ◌>>=◌, execute, with_persona,
}

abbrev pub or_else : Option String → Option String → Option String
or_else none o = o
or_else (some e) o = some e

-- The stages before the `try`, and those of its body up to the receipt's storing, in their order.
abbrev pub preparing : List Stage
preparing = in_prompt ∷ in_span ∷ []

abbrev pub concluding : List Stage
concluding = heard issuing_receipt ∷ in_receipt ∷ heard succeeded ∷ in_store ∷ []

abbrev pub verifying : List Stage
verifying = heard dispatch_to_verifier ∷ heard verifier_auditing ∷ in_verifier ∷ concluding

abbrev pub operating : List Stage
operating = heard dispatch_to_operator ∷ heard operator_executing ∷ in_operator ∷ verifying

abbrev pub looping : List Stage
looping = heard dispatch_to_architect ∷ heard architect_streaming ∷ in_architect ∷ operating

-- What the first of the stages that throws throws.
abbrev pub first_throw : Outside → List Stage → Option String
first_throw out [] = none
first_throw out (s ∷ ss) = or_else (out.throws s) (first_throw out ss)

-- A cycle on its way, in a phase.
abbrev On : Phase → Cycle → Type 0
On p c = (c.phase ≡ p) × TrailOf p (phases (trail c))

transition-On :
    (c : Cycle) (p : Phase) (r : Request)
    → includes (next_phases p) r.next ≡ true
    → On p c
    → (c' : Cycle) × (transition c r ≡ some (c', event_of c r)) × On r.next c'
unfolding transition can_transition event_of trail
transition-On c p r l v =
    let l' : includes (next_phases c.phase) r.next ≡ true = rw v.0 l in
    (
      record c {
        phase = r.next;
        history = event_of c r ∷ c.history;
        emitted = event_of c r ∷ c.emitted;
      },
      rw (l', transition) refl,
      (
        refl,
        rw (phases-snoc c.history (event_of c r)) (TrailOf-next p r.next (phases (trail c)) l v.1),
      ),
    )

-- How the rest of the loop ends, given the first of its stages that throws.
abbrev Ends : Option String → Attempt Receipt → Type 0
Ends none (done c r) = On succeeded c × (r.phase_trail ≡ trail c) × (r.status ≡ verified)
Ends none (thrown c e) = true ≡ false
Ends (some x) (done c r) = true ≡ false
Ends (some x) (thrown c e) = e ≡ x

stage-Ends :
    (out : Outside) (s : Stage) (c : Cycle) (o : Option String) (f : Cycle → Attempt Receipt)
    → Ends o (f c)
    → Ends (or_else (out.throws s) o) (stage out s c >>= λ c' _. f c')
unfolding stage
stage-Ends out s c o f v = elim (Option-cases (out.throws s)) [
  | inl e ↦ rw (e, stage) v
  | inr (x, e) ↦ rw (e, stage) refl
]

advance-Ends :
    (out : Outside) (c : Cycle) (p q : Phase) (agent note : Option String) (now : ℕ)
    (o : Option String) (f : Cycle → Attempt Receipt)
    → includes (next_phases p) q ≡ true
    → On p c
    → ((c' : Cycle) → On q c' → Ends o (f c'))
    → Ends (or_else (out.throws (heard q)) o) (advance out c q agent note now >>= λ c' _. f c')
unfolding advance
advance-Ends out c p q agent note now o f l v k =
    let r : Request = record { next = q; now = now; routed_agent = agent; note = note } in
    let (c', e, v') = transition-On c p r l v in
    rw (e, advance) (stage-Ends out (heard q) c' o f (k c' v'))

module _ (out : Outside) (b : Bridge) (route : Routing) (task : String) (ctx : List Message) where
  conclude-Ends :
      (c : Cycle)
      → On verifier_auditing c
      → Ends (first_throw out concluding) (conclude out b route task ctx c)
  unfolding conclude next_phases includes same verifier operator last_phase receipt_of status_of
  conclude-Ends c v =
      advance-Ends out c verifier_auditing issuing_receipt none none (out.clock 7) _ _ refl v
        λ c1 v1. stage-Ends out in_receipt c1 _ _ (
          advance-Ends out c1 issuing_receipt succeeded (some route.agent) none (out.clock 9) _ _
            refl v1 λ c2 v2. stage-Ends out in_store c2 none _ (v2, refl, refl))

  verify-Ends :
      (c : Cycle)
      → On operator_executing c
      → Ends (first_throw out verifying) (verify out b route task ctx c)
  unfolding verify next_phases includes same
  verify-Ends c v =
      advance-Ends out c operator_executing dispatch_to_verifier none none (out.clock 5) _ _ refl v
        λ c1 v1.
          advance-Ends out c1 dispatch_to_verifier verifier_auditing none none (out.clock 6) _ _
            refl v1 λ c2 v2. stage-Ends out in_verifier c2 _ _ (conclude-Ends c2 v2)

  operate-Ends :
      (c : Cycle)
      → On architect_streaming c
      → Ends (first_throw out operating) (operate out b route task ctx c)
  unfolding operate next_phases includes same
  operate-Ends c v =
      advance-Ends out c architect_streaming dispatch_to_operator none none (out.clock 3) _ _ refl v
        λ c1 v1.
          advance-Ends out c1 dispatch_to_operator operator_executing none none (out.clock 4) _ _
            refl v1 λ c2 v2. stage-Ends out in_operator c2 _ _ (verify-Ends c2 v2)

  attempt-Ends :
      (c : Cycle)
      → On preparing_context c
      → Ends (first_throw out looping) (attempt out b route task ctx c)
  unfolding attempt next_phases includes same
  attempt-Ends c v =
      advance-Ends out c preparing_context dispatch_to_architect (some route.agent)
        (some route.rationale) (out.clock 1) _ _ refl v
        λ c1 v1.
          advance-Ends out c1 dispatch_to_architect architect_streaming none none (out.clock 2) _ _
            refl v1 λ c2 v2. stage-Ends out in_architect c2 _ _ (operate-Ends c2 v2)

-- The receipt is the one that was stored, is verified and tells the trail of the cycle.
abbrev pub IsStored : Bridge → Executed → Option Receipt → Type 0
IsStored b x none = true ≡ false
IsStored b x (some r) =
    (x.bridge.receipts ≡ b.receipts ++ r ∷ [])
    × (r.phase_trail ≡ trail x.cycle)
    × (r.status ≡ verified)

-- How a cycle ends, given what is thrown before the `try`, in its body up to the storing of the
-- receipt, and after that.
abbrev pub Settled :
    Outside → Bridge → Option String → Option String → Option String → Executed → Type 0
Settled out b (some e) o o' x =
    (x.error ≡ some e)
    × (x.outcome ≡ none)
    × (x.cycle.phase ≡ preparing_context)
    × (x.bridge.receipts ≡ b.receipts)
Settled out b none (some e) o x =
    (x.error ≡ some (or_default (out.throws in_catch) e))
    × (x.outcome ≡ none)
    × (is_terminal x.cycle ≡ true)
    × (x.bridge.receipts ≡ b.receipts)
Settled out b none none (some e) x =
    (x.error ≡ some (or_default (out.throws in_catch) e))
    × (x.outcome ≡ none)
    × (phases (trail x.cycle) ≡ pipeline)
    × IsStored b x x.announced
Settled out b none none none x =
    (x.error ≡ none)
    × (x.outcome ≡ x.announced)
    × (phases (trail x.cycle) ≡ pipeline)
    × IsStored b x x.announced

abbrev pub IsSettled : Outside → Bridge → Executed → Type 0
IsSettled out b x =
    Settled out b (first_throw out preparing) (first_throw out looping) (out.throws in_announce) x

fail_cycle-is_terminal :
    (out : Outside) (route : Routing) (c : Cycle) (e : String)
    → is_terminal (fail_cycle out route c e) ≡ true
unfolding fail_cycle is_terminal advance stage transition can_transition next_phases includes same
    terminal
fail_cycle-is_terminal out route c e = ground arith

fail_cycle-terminal :
    (out : Outside) (route : Routing) (c : Cycle) (e : String)
    → On succeeded c
    → fail_cycle out route c e ≡ c
unfolding fail_cycle is_terminal terminal includes same
fail_cycle-terminal out route c e v = rw (v.0, fail_cycle, is_terminal) refl

module _ (out : Outside) (b b' : Bridge) (route : Routing) (kept : b'.receipts ≡ b.receipts) where
  settle-Settled :
      (o : Option String) (a : Attempt Receipt)
      → Ends o a
      → Settled out b none o (out.throws in_announce) (settle out b' route a)
  unfolding settle caught take
  settle-Settled none (done c r) v = elim (Option-cases (out.throws in_announce)) [
    | inl n ↦
        rw (n, settle)
          (refl, refl, v.0.1, (ap (λ (rs : List Receipt). rs ++ r ∷ []) kept, v.1, v.2))
    | inr (e, n) ↦
        let same_cycle = fail_cycle-terminal out route c e v.0 in
        rw (n, settle)
          (
            refl,
            refl,
            ap (λ d. phases (trail d)) same_cycle ∙ v.0.1,
            (ap (λ (rs : List Receipt). rs ++ r ∷ []) kept, v.1 ∙ ap trail (sym same_cycle), v.2),
          )
  ]
  settle-Settled none (thrown c e) v = cc
  settle-Settled (some x) (done c r) v = cc
  settle-Settled (some x) (thrown c e) v = (
    ap (λ m. some (or_default (out.throws in_catch) m)) v,
    refl,
    fail_cycle-is_terminal out route c e,
    kept,
  )

route-receipts :
    (b : Bridge) (now at : ℕ)
    → (note_dispatch (route_architect b now).0 (route_architect b now).1.agent at).receipts
      ≡ b.receipts
unfolding note_dispatch route_architect ask_rates
route-receipts b now at = ground arith

-- Whatever throws, a cycle ends. If a stage before the loop throws first, the exception goes out and
-- the cycle has not moved; if one of the loop does, up to the storing of the receipt, the cycle ends
-- in a terminal phase; in both cases no receipt is stored. Otherwise the cycle has gone through all
-- nine phases and one verified receipt is stored that tells that trail: it is the result, or an
-- exception is that was thrown after the storing. An exception of the loop or after it goes out,
-- unless handling it throws another.
pub execute-IsSettled :
    (b : Bridge) (out : Outside) (task : String) (context : List Message)
    → IsSettled out b (execute b out task context)
unfolding execute stage not_begun
execute-IsSettled b out task context =
    let (b1, route) = route_architect b (out.clock 0) in
    let b2 = note_dispatch b1 route.agent (out.clock 0) in
    let ctx = with_persona b2.persona route.agent (shard_context context b2.keep_recent_turns) in
    let c = start out.cycle_id out.task_hash (out.clock 0) in
    let kept = route-receipts b (out.clock 0) (out.clock 0) in
    elim (Option-cases (out.throws in_prompt)) [
      | inr (e, p) ↦ rw (p, execute, stage, not_begun) (refl, refl, unfold start in refl, kept)
      | inl p ↦ elim (Option-cases (out.throws in_span)) [
        | inr (e, q) ↦ rw (p, q, execute, stage, not_begun) (refl, refl, unfold start in refl, kept)
        | inl q ↦
            rw (p, q, execute, stage)
              (settle-Settled out b b2 route kept (first_throw out looping)
                (attempt out b2 route task ctx c)
                (attempt-Ends out b2 route task ctx c (unfold start trail take in (refl, refl))))
      ]
    ]
