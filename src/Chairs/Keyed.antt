-- ===== src/Chairs/Keyed.antt =====
-- src/services/ChairRegistry.ts: each chair stands under its own agent, and no agent has two.
use kovael.Common.{
  ℕ, ◌+◌, ◌≡◌, refl, String, not, ◌&&◌, Option, List, [], ◌∷◌, leb, str_eq, Bool-cases,
  Option-cases, inl, inr,
}
use kovael.Table.{Table, get, values}
use kovael.Table.Laws.{Unique, set-Unique, delete-Unique}
use kovael.Table.Entries.{AllEntries, AllEntries-set, AllEntries-delete}
use kovael.Chairs.{
  Chair, Registry, stale, ChairEvent, Call, Reason, claims, beats, releases, sweeps, is_stale,
  persist, erase, emit, store, remove, sweep_one, sweep_all, sweep, claim, supersede, new_claim,
  heartbeat, release, beat, step, run,
}

abbrev pub IsOwn : String → Chair → Type 0
IsOwn a c = c.agent_id ≡ a

abbrev pub Keyed : Table Chair → Type 0
Keyed t = Unique t × AllEntries IsOwn t

pub record IsKeyed (r : Registry) : Type 0 where
  pub unique : Unique r.chairs
  pub own : AllEntries IsOwn r.chairs

write-IsKeyed : (r : Registry) (c : Chair) → IsKeyed r → IsKeyed (persist (store r c) c)
unfolding persist store
write-IsKeyed r c v =
    let u = set-Unique c.agent_id c r.chairs v.unique in
    let o = AllEntries-set IsOwn c.agent_id c r.chairs refl v.own in
    elim (Option-cases r.db) [
      | inl e ↦ rw (e, persist) (record { unique = u; own = o })
      | inr (t, e) ↦ rw (e, persist) (record { unique = u; own = o })
    ]

drop-IsKeyed : (r : Registry) (a : String) → IsKeyed r → IsKeyed (erase (remove r a) a)
unfolding erase remove
drop-IsKeyed r a v =
    let u = delete-Unique a r.chairs v.unique in
    let o = AllEntries-delete IsOwn a r.chairs v.own in
    elim (Option-cases r.db) [
      | inl e ↦ rw (e, erase) (record { unique = u; own = o })
      | inr (t, e) ↦ rw (e, erase) (record { unique = u; own = o })
    ]

emit-IsKeyed : (r : Registry) (e : ChairEvent) → IsKeyed r → IsKeyed (emit r e)
unfolding emit
emit-IsKeyed r e v = record { unique = v.unique; own = v.own }

supersede-IsKeyed : (r : Registry) (a : String) (now : ℕ) → IsKeyed r → IsKeyed (supersede r a now)
unfolding supersede emit
supersede-IsKeyed r a now v = elim (Option-cases (get a r.chairs)) [
  | inl e ↦ rw (e, supersede) v
  | inr (c, e) ↦ rw (e, supersede) (record { unique = v.unique; own = v.own })
]

heartbeat-IsKeyed :
    (r : Registry) (a session : String) (memo : Option String) (now : ℕ)
    → IsKeyed r
    → IsKeyed (heartbeat r a session memo now).0
unfolding heartbeat
heartbeat-IsKeyed r a session memo now v = elim (Option-cases (get a r.chairs)) [
  | inl e ↦ rw (e, heartbeat) v
  | inr (c, e) ↦ elim (Bool-cases (str_eq c.session_id session)) [
    | inl ok ↦ rw (e, heartbeat, ok) (emit-IsKeyed _ _ (write-IsKeyed r (beat c memo now) v))
    | inr wrong ↦ rw (e, heartbeat, wrong) v
  ]
]

release-IsKeyed :
    (r : Registry) (a session : String) (reason : Reason) (now : ℕ)
    → IsKeyed r
    → IsKeyed (release r a session reason now).0
unfolding release
release-IsKeyed r a session reason now v = elim (Option-cases (get a r.chairs)) [
  | inl e ↦ rw (e, release) v
  | inr (c, e) ↦ elim (Bool-cases (str_eq c.session_id session)) [
    | inl ok ↦ rw (e, release, ok) (emit-IsKeyed _ _ (drop-IsKeyed r a v))
    | inr wrong ↦ rw (e, release, wrong) v
  ]
]

sweep_one-IsKeyed : (r : Registry) (now : ℕ) (c : Chair) → IsKeyed r → IsKeyed (sweep_one r now c)
unfolding sweep_one
sweep_one-IsKeyed r now c v = elim (Bool-cases (leb (c.last_beacon_at + r.cfg.offline_ms) now)) [
  | inl over ↦ rw over (emit-IsKeyed _ _ (drop-IsKeyed r c.agent_id v))
  | inr live ↦
      elim (Bool-cases (leb (c.last_beacon_at + r.cfg.healthy_ms) now && not (is_stale c.status))) [
        | inl late ↦
            rw (live, late) (emit-IsKeyed _ _ (write-IsKeyed r (record c { status = stale }) v))
        | inr fine ↦ rw (live, fine) v
      ]
]

sweep_all-IsKeyed :
    (cs : List Chair) (r : Registry) (now : ℕ) → IsKeyed r → IsKeyed (sweep_all r now cs)
unfolding sweep_all
sweep_all-IsKeyed [] r now v = v
sweep_all-IsKeyed (c ∷ cs) r now v =
    sweep_all-IsKeyed cs (sweep_one r now c) now (sweep_one-IsKeyed r now c v)

-- No call puts a chair under another agent or an agent into two chairs.
pub step-IsKeyed : (r : Registry) (c : ℕ × Call) → IsKeyed r → IsKeyed (step r c)
unfolding step claim sweep
step-IsKeyed r (now, claims i session) v =
    emit-IsKeyed _ _
      (write-IsKeyed _ (new_claim i session now) (supersede-IsKeyed r i.agent_id now v))
step-IsKeyed r (now, beats a session memo) v = heartbeat-IsKeyed r a session memo now v
step-IsKeyed r (now, releases a session reason) v = release-IsKeyed r a session reason now v
step-IsKeyed r (now, sweeps) v = sweep_all-IsKeyed (values r.chairs) r now v

pub run-IsKeyed : (cs : List (ℕ × Call)) (r : Registry) → IsKeyed r → IsKeyed (run r cs)
unfolding run
run-IsKeyed [] r v = v
run-IsKeyed (c ∷ cs) r v = run-IsKeyed cs (step r c) (step-IsKeyed r c v)
