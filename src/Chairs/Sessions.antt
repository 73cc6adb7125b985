-- ===== src/Chairs/Sessions.antt =====
-- src/services/ChairRegistry.ts: a chair answers to the session that holds it, and to no other.
use kovael.Common.{
  ℕ, ◌≡◌, ◌∙◌, ap, String, Bool, false, ◌&&◌, Option, none, some, List, [], ◌∷◌, str_eq,
  str_eq_self, eq_iff, if◌then◌else◌, arith, Option-cases, inl, inr, All, is_some,
}
use kovael.Table.{get}
use kovael.Table.Laws.{get-set, get-delete}
use kovael.Chairs.Keyed.{IsKeyed, step-IsKeyed, IsOwn}
use kovael.Chairs.Sweep.{get-sweep}
use kovael.Table.Entries.{AllEntries-get}
use kovael.Chairs.{
  Chair, Registry, Input, Call, Reason, claims, beats, releases, sweeps, persist, erase, emit,
  store, remove, beat, supersede, new_claim, claim, heartbeat, release, step, run,
}

abbrev pub held_by : Option Chair → String → Bool
held_by none session = false
held_by (some c) session = str_eq c.session_id session

-- A heartbeat or a release is accepted exactly when its session holds the chair.
pub accepted_held_by :
    (r : Registry) (a session : String) (memo : Option String) (reason : Reason) (now : ℕ)
    → (is_some (heartbeat r a session memo now).1 ≡ held_by (get a r.chairs) session)
      × ((release r a session reason now).1 ≡ held_by (get a r.chairs) session)
unfolding heartbeat release
accepted_held_by r a session memo reason now = (ground arith, ground arith)

-- The calls that give an agent's chair to a session.
abbrev pub gives : String → String → Call → Bool
gives a session (claims i s) = str_eq i.agent_id a && str_eq s session
gives a session _ = false

get-write :
    (r : Registry) (c : Chair) (a : String)
    → get a (persist (store r c) c).chairs
      ≡ (if str_eq c.agent_id a then some c else get a r.chairs)
unfolding persist store
get-write r c a = ground (arith, get-set c.agent_id a c r.chairs)

get-drop :
    (r : Registry) (k a : String)
    → get a (erase (remove r k) k).chairs ≡ (if str_eq k a then none else get a r.chairs)
unfolding erase remove
get-drop r k a = ground (arith, get-delete k a r.chairs)

supersede-chairs : (r : Registry) (a : String) (now : ℕ) → (supersede r a now).chairs ≡ r.chairs
unfolding supersede emit
supersede-chairs r a now = ground arith

get-claim :
    (r : Registry) (i : Input) (session a : String) (now : ℕ)
    → get a (claim r i session now).0.chairs
      ≡ (if str_eq i.agent_id a then some (new_claim i session now) else get a r.chairs)
unfolding claim emit new_claim
get-claim r i session a now =
    get-write (supersede r i.agent_id now) (new_claim i session now) a
    ∙ ap (λ t. if str_eq i.agent_id a then some (new_claim i session now) else get a t)
        (supersede-chairs r i.agent_id now)

-- What an accepted heartbeat makes of the chair.
abbrev beaten : Option Chair → String → Option String → ℕ → Option Chair
beaten none session memo now = none
beaten (some c) session memo now =
    if str_eq c.session_id session then some (beat c memo now) else some c

get-heartbeat :
    (r : Registry) (k session a : String) (memo : Option String) (now : ℕ)
    → IsKeyed r
    → get a (heartbeat r k session memo now).0.chairs
      ≡ (if str_eq k a then beaten (get a r.chairs) session memo now else get a r.chairs)
unfolding heartbeat emit beat
get-heartbeat r k session a memo now v = elim (Option-cases (get k r.chairs)) [
  | inl e ↦ rw (e, heartbeat) (ground (arith, eq_iff k a))
  | inr (c, e) ↦
      let own : c.agent_id ≡ k = AllEntries-get IsOwn k c r.chairs v.own e in
      rw (e, heartbeat) (ground (arith, own, eq_iff k a, get-write r (beat c memo now) a))
]

get-release :
    (r : Registry) (k session a : String) (reason : Reason) (now : ℕ)
    → get a (release r k session reason now).0.chairs
      ≡ (if str_eq k a && held_by (get a r.chairs) session then none else get a r.chairs)
unfolding release emit
get-release r k session a reason now = elim (Option-cases (get k r.chairs)) [
  | inl e ↦ rw (e, release) (ground (arith, eq_iff k a))
  | inr (c, e) ↦ rw (e, release) (ground (arith, eq_iff k a, get-drop r k a))
]

-- A session that does not hold a chair does not come to hold it but by a claim.
step-held_by :
    (r : Registry) (now : ℕ) (c : Call) (a session : String)
    → IsKeyed r
    → gives a session c ≡ false
    → held_by (get a r.chairs) session ≡ false
    → held_by (get a (step r (now, c)).chairs) session ≡ false
unfolding step new_claim beat
step-held_by r now (claims i s) a session v g h = ground (arith, get-claim r i s a now)
step-held_by r now (beats k s memo) a session v g h =
    ground (arith, get-heartbeat r k s a memo now v)
step-held_by r now (releases k s reason) a session v g h =
    ground (arith, get-release r k s a reason now)
step-held_by r now sweeps a session v g h = ground (arith, get-sweep r now a v)

run-held_by :
    (cs : List (ℕ × Call)) (r : Registry) (a session : String)
    → IsKeyed r
    → All (λ c. gives a session c.1 ≡ false) cs
    → held_by (get a r.chairs) session ≡ false
    → held_by (get a (run r cs).chairs) session ≡ false
unfolding run
run-held_by [] r a session v g h = h
run-held_by ((now, c) ∷ cs) r a session v g h =
    run-held_by cs (step r (now, c)) a session (step-IsKeyed r (now, c) v) g.1
      (step-held_by r now c a session v g.0 h)

-- Once a new claim has taken an agent's chair, a heartbeat or a release by any other session is
-- refused, whatever calls follow, unless one of them claims the chair for that session again: a
-- crashed agent cannot come back into a chair that was taken over.
pub superseded_refused :
    (r : Registry) (i : Input) (old new : String) (now later : ℕ) (cs : List (ℕ × Call))
    (memo : Option String) (reason : Reason)
    → IsKeyed r
    → str_eq new old ≡ false
    → All (λ c. gives i.agent_id old c.1 ≡ false) cs
    → let r' = run (claim r i new now).0 cs in
      ((heartbeat r' i.agent_id old memo later).1 ≡ none)
      × ((release r' i.agent_id old reason later).1 ≡ false)
unfolding step new_claim
superseded_refused r i old new now later cs memo reason v other g =
    let taken = claim r i new now in
    let r' = run taken.0 cs in
    let first : held_by (get i.agent_id taken.0.chairs) old ≡ false =
      ground (arith, get-claim r i new i.agent_id now, str_eq_self i.agent_id) in
    let refused =
      run-held_by cs taken.0 i.agent_id old (step-IsKeyed r (now, claims i new) v) g first in
    ground (arith, accepted_held_by r' i.agent_id old memo reason later, refused)
