-- ===== src/Chairs/Mirror.antt =====
-- src/services/ChairRegistry.ts: the rows on disk are those of the chairs in memory, at all times.
use kovael.Common.{
  ℕ, ◌+◌, ◌≡◌, String, not, ◌&&◌, Option, none, some, List, [], ◌∷◌, leb, str_eq, arith, Bool-cases,
  Option-cases, inl, inr,
}
use kovael.Table.{Table, get, values}
use kovael.Table.Laws.{get-set, get-delete}
use kovael.Chairs.{
  Chair, Row, Json, Registry, ChairEvent, Reason, Call, claims, beats, releases, sweeps, row_of,
  persist, erase, emit, store, remove, new_claim, beat, is_stale, stale, supersede, claim,
  heartbeat, release, sweep_one, sweep_all, sweep, step, run,
}

abbrev pub rows_of : Json → Option Chair → Option Row
rows_of j none = none
rows_of j (some c) = some (row_of j c)

abbrev pub IsCopy : Json → Table Chair → Option (Table Row) → Type 0
IsCopy j t none = Unit
IsCopy j t (some rows) = (a : String) → get a rows ≡ rows_of j (get a t)

-- Every chair has its row, and every row its chair.
unfoldable pub IsMirrored : Registry → Type 0
IsMirrored r = IsCopy r.json r.chairs r.db

write-IsMirrored : (r : Registry) (c : Chair) → IsMirrored r → IsMirrored (persist (store r c) c)
unfolding IsMirrored persist store
write-IsMirrored r c v = elim (Option-cases r.db) [
  | inl e ↦ rw (e, persist) (ground arith)
  | inr (t, e) ↦
      rw (e, persist)
        (λ a. ground (
          arith,
          (rw e at v) a,
          get-set c.agent_id a c r.chairs,
          get-set c.agent_id a (row_of r.json c) t,
        ))
]

drop-IsMirrored : (r : Registry) (a : String) → IsMirrored r → IsMirrored (erase (remove r a) a)
unfolding IsMirrored erase remove
drop-IsMirrored r a v = elim (Option-cases r.db) [
  | inl e ↦ rw (e, erase) (ground arith)
  | inr (t, e) ↦
      rw (e, erase) (λ j. ground (arith, (rw e at v) j, get-delete a j r.chairs, get-delete a j t))
]

emit-IsMirrored : (r : Registry) (e : ChairEvent) → IsMirrored r → IsMirrored (emit r e)
unfolding IsMirrored emit
emit-IsMirrored r e v = v

supersede-IsMirrored :
    (r : Registry) (a : String) (now : ℕ) → IsMirrored r → IsMirrored (supersede r a now)
unfolding IsMirrored supersede
supersede-IsMirrored r a now v = elim (Option-cases (get a r.chairs)) [
  | inl e ↦ rw (e, supersede) v
  | inr (c, e) ↦ rw (e, supersede) v
]

heartbeat-IsMirrored :
    (r : Registry) (a session : String) (memo : Option String) (now : ℕ)
    → IsMirrored r
    → IsMirrored (heartbeat r a session memo now).0
unfolding heartbeat
heartbeat-IsMirrored r a session memo now v = elim (Option-cases (get a r.chairs)) [
  | inl e ↦ rw (e, heartbeat) v
  | inr (c, e) ↦ elim (Bool-cases (str_eq c.session_id session)) [
    | inl ok ↦ rw (e, heartbeat, ok) (emit-IsMirrored _ _ (write-IsMirrored r (beat c memo now) v))
    | inr wrong ↦ rw (e, heartbeat, wrong) v
  ]
]

release-IsMirrored :
    (r : Registry) (a session : String) (reason : Reason) (now : ℕ)
    → IsMirrored r
    → IsMirrored (release r a session reason now).0
unfolding release
release-IsMirrored r a session reason now v = elim (Option-cases (get a r.chairs)) [
  | inl e ↦ rw (e, release) v
  | inr (c, e) ↦ elim (Bool-cases (str_eq c.session_id session)) [
    | inl ok ↦ rw (e, release, ok) (emit-IsMirrored _ _ (drop-IsMirrored r a v))
    | inr wrong ↦ rw (e, release, wrong) v
  ]
]

sweep_one-IsMirrored :
    (r : Registry) (now : ℕ) (c : Chair) → IsMirrored r → IsMirrored (sweep_one r now c)
unfolding sweep_one
sweep_one-IsMirrored r now c v = elim (Bool-cases (leb (c.last_beacon_at + r.cfg.offline_ms) now)) [
  | inl over ↦ rw over (emit-IsMirrored _ _ (drop-IsMirrored r c.agent_id v))
  | inr live ↦
      elim (Bool-cases (leb (c.last_beacon_at + r.cfg.healthy_ms) now && not (is_stale c.status))) [
        | inl late ↦
            rw (live, late)
              (emit-IsMirrored _ _ (write-IsMirrored r (record c { status = stale }) v))
        | inr fine ↦ rw (live, fine) v
      ]
]

sweep_all-IsMirrored :
    (cs : List Chair) (r : Registry) (now : ℕ) → IsMirrored r → IsMirrored (sweep_all r now cs)
unfolding sweep_all
sweep_all-IsMirrored [] r now v = v
sweep_all-IsMirrored (c ∷ cs) r now v =
    sweep_all-IsMirrored cs (sweep_one r now c) now (sweep_one-IsMirrored r now c v)

-- Every claim, heartbeat, release and sweep writes to disk what it changes in memory: after it each
-- chair has its row and each row its chair, if that was so before.
pub step-IsMirrored : (r : Registry) (c : ℕ × Call) → IsMirrored r → IsMirrored (step r c)
unfolding step claim sweep
step-IsMirrored r (now, claims i session) v =
    emit-IsMirrored _ _
      (write-IsMirrored _ (new_claim i session now) (supersede-IsMirrored r i.agent_id now v))
step-IsMirrored r (now, beats a session memo) v = heartbeat-IsMirrored r a session memo now v
step-IsMirrored r (now, releases a session reason) v = release-IsMirrored r a session reason now v
step-IsMirrored r (now, sweeps) v = sweep_all-IsMirrored (values r.chairs) r now v

pub run-IsMirrored : (cs : List (ℕ × Call)) (r : Registry) → IsMirrored r → IsMirrored (run r cs)
unfolding run
run-IsMirrored [] r v = v
run-IsMirrored (c ∷ cs) r v = run-IsMirrored cs (step r c) (step-IsMirrored r c v)
