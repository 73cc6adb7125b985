-- ===== src/Chairs/Sweep.antt =====
-- src/services/ChairRegistry.ts: what a sweep does to each chair.
use kovael.Common.{
  ℕ, ◌+◌, ◌≡◌, refl, ◌∙◌, ap, sym, String, true, false, not, ◌&&◌, Option, none, some, [], ◌∷◌, leb,
  str_eq, eq_iff, if◌then◌else◌, arith, Bool-cases, inl, inr,
}
use kovael.Table.{Table, get, values}
use kovael.Table.Laws.{Unique, get-set, get-delete}
use kovael.Table.Entries.{AllEntries}
use kovael.Chairs.Keyed.{IsKeyed, IsOwn}
use kovael.Chairs.{
  Chair, Registry, Config, stale, is_stale, persist, erase, emit, store, remove, sweep_one,
  sweep_all, sweep,
}

-- A chair after a sweep: gone at the offline limit, stale at the healthy limit.
abbrev pub swept : Config → ℕ → Chair → Option Chair
swept cfg now c =
    if leb (c.last_beacon_at + cfg.offline_ms) now
    then none
    else if leb (c.last_beacon_at + cfg.healthy_ms) now && not (is_stale c.status)
    then some (record c { status = stale })
    else some c

abbrev pub swept? : Config → ℕ → Option Chair → Option Chair
swept? cfg now none = none
swept? cfg now (some c) = swept cfg now c

-- The writes to the database and the events leave the chairs alone.
persist-chairs :
    (r : Registry) (c : Chair) → ((persist r c).chairs ≡ r.chairs) × ((persist r c).cfg ≡ r.cfg)
unfolding persist
persist-chairs r c = ground arith

erase-chairs :
    (r : Registry) (a : String) → ((erase r a).chairs ≡ r.chairs) × ((erase r a).cfg ≡ r.cfg)
unfolding erase
erase-chairs r a = ground arith

sweep_one-cfg : (r : Registry) (now : ℕ) (c : Chair) → (sweep_one r now c).cfg ≡ r.cfg
unfolding sweep_one emit store remove
sweep_one-cfg r now c = ground (
  arith,
  persist-chairs (store r (record c { status = stale })) (record c { status = stale }),
  erase-chairs (remove r c.agent_id) c.agent_id,
)

-- A chair's entry after the round of the loop that is about it.
abbrev after_round : Config → ℕ → Chair → Option Chair → Option Chair
after_round cfg now c o =
    if leb (c.last_beacon_at + cfg.offline_ms) now
    then none
    else if leb (c.last_beacon_at + cfg.healthy_ms) now && not (is_stale c.status)
    then some (record c { status = stale })
    else o

get-sweep_one :
    (r : Registry) (now : ℕ) (c : Chair) (a : String)
    → get a (sweep_one r now c).chairs
      ≡ (if str_eq c.agent_id a then after_round r.cfg now c (get a r.chairs) else get a r.chairs)
unfolding sweep_one emit store remove
get-sweep_one r now c a =
    let old = record c { status = stale } in
    ground (
      arith,
      ap (get a) (persist-chairs (store r old) old).0,
      ap (get a) (erase-chairs (remove r c.agent_id) c.agent_id).0,
      get-set c.agent_id a old r.chairs,
      get-delete c.agent_id a r.chairs,
    )

abbrev after_rounds : Config → ℕ → Option Chair → Option Chair → Option Chair
after_rounds cfg now none o = o
after_rounds cfg now (some c) o = after_round cfg now c o

get-sweep_all :
    (t : Table Chair) (r : Registry) (now : ℕ) (a : String)
    → Unique t
    → AllEntries IsOwn t
    → get a (sweep_all r now (values t)).chairs ≡ after_rounds r.cfg now (get a t) (get a r.chairs)
unfolding sweep_all get
get-sweep_all [] r now a u o = refl
get-sweep_all ((k, c) ∷ t) r now a u o =
    let ih = get-sweep_all t (sweep_one r now c) now a u.1 o.1 in
    let cfg = sweep_one-cfg r now c in
    let one = get-sweep_one r now c a in
    ih ∙ elim (Bool-cases (str_eq k a)) [
      | inl own ↦
          let missing : get a t ≡ none = ap (λ x. get x t) (sym ((eq_iff k a).0 own)) ∙ u.0 in
          let own' : str_eq c.agent_id a ≡ true = rw o.0 own in
          rw (missing, own) (one ∙ rw own' refl)
      | inr other ↦
          let other' : str_eq c.agent_id a ≡ false = rw o.0 other in
          rw (other, cfg) (ap (after_rounds r.cfg now (get a t)) (one ∙ rw other' refl))
    ]

-- A sweep takes every chair as the liveness windows say: gone from the offline limit on, stale from
-- the healthy limit on, else untouched.
pub get-sweep :
    (r : Registry) (now : ℕ) (a : String)
    → IsKeyed r
    → get a (sweep r now).chairs ≡ swept? r.cfg now (get a r.chairs)
unfolding sweep
get-sweep r now a v = get-sweep_all r.chairs r now a v.unique v.own ∙ ground arith
