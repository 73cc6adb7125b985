-- ===== src/Chairs/Restart.antt =====
-- src/services/ChairRegistry.ts: a registry that is opened again on its database.
use kovael.Common.{
  ℕ, ◌+◌, ◌≡◌, refl, ◌∙◌, ap, sym, String, Option, none, some, List, [], ◌∷◌, ltb, str_eq, eq_iff,
  if◌then◌else◌, arith, Bool-cases, Option-cases, inl, inr,
}
use kovael.Table.{Table, get}
use kovael.Table.Laws.{Unique, get-set}
use kovael.Chairs.{
  Chair, Row, Json, Registry, Config, stale, row_of, claim_of, persist, erase, store, hydrate_rows,
  attach,
}
use kovael.Chairs.Mirror.{rows_of, IsMirrored}
use kovael.Chairs.Keyed.{IsKeyed, IsOwn}
use kovael.Table.Entries.{AllEntries-get}

-- A row's claim after a restart; a row that is too old has none, and leaves the entry as it was.
abbrev read_back : Config → Json → ℕ → String → Option Row → Option Chair → Option Chair
read_back cfg j now a none o = o
read_back cfg j now a (some w) o =
    if ltb (w.last_beacon_at + cfg.offline_ms) now then o else some (claim_of j a w)

abbrev hydrated : Registry → ℕ → String → Row → Registry
hydrated r now a w =
    if ltb (w.last_beacon_at + r.cfg.offline_ms) now
    then erase r a
    else persist (store r (claim_of r.json a w)) (claim_of r.json a w)

hydrated-cfg :
    (r : Registry) (now : ℕ) (a : String) (w : Row)
    → ((hydrated r now a w).cfg ≡ r.cfg) × ((hydrated r now a w).json ≡ r.json)
unfolding erase persist store
hydrated-cfg r now a w = ground arith

get-hydrated :
    (r : Registry) (now : ℕ) (k a : String) (w : Row)
    → get a (hydrated r now k w).chairs ≡ (
        if str_eq k a
        then read_back r.cfg r.json now k (some w) (get a r.chairs)
        else get a r.chairs)
unfolding erase persist store claim_of
get-hydrated r now k a w = ground (arith, get-set k a (claim_of r.json k w) r.chairs)

get-hydrate_rows :
    (rows : Table Row) (r : Registry) (now : ℕ) (a : String)
    → Unique rows
    → get a (hydrate_rows r now rows).chairs
      ≡ read_back r.cfg r.json now a (get a rows) (get a r.chairs)
unfolding hydrate_rows get
get-hydrate_rows [] r now a u = refl
get-hydrate_rows ((k, w) ∷ rows) r now a u =
    let r' = hydrated r now k w in
    let ih = get-hydrate_rows rows r' now a u.1 in
    let (cfg, json) = hydrated-cfg r now k w in
    let one = get-hydrated r now k a w in
    ih ∙ elim (Bool-cases (str_eq k a)) [
      | inl own ↦
          let same = (eq_iff k a).0 own in
          let missing : get a rows ≡ none = ap (λ x. get x rows) (sym same) ∙ u.0 in
          rw (missing, own) (one ∙ rw (own, same) refl)
      | inr other ↦
          rw (other, cfg, json)
            (ap (read_back r.cfg r.json now a (get a rows)) (one ∙ rw other refl))
    ]

-- A chair after a restart: gone if its last beacon is older than the offline limit, else the same
-- claim, stale until a heartbeat.
abbrev pub restarted : Config → ℕ → Option Chair → Option Chair
restarted cfg now none = none
restarted cfg now (some c) =
    if ltb (c.last_beacon_at + cfg.offline_ms) now then none else some (record c { status = stale })

-- Over JSON that reads back what it writes, a registry opened on the rows of another holds the
-- claims that the other held, with their sessions, all stale and without those past the offline
-- limit.
pub get-restart :
    (r : Registry) (rows : Table Row) (now : ℕ) (a : String)
    → ((cs : List String) → r.json.decode (r.json.encode cs) ≡ some cs)
    → IsKeyed r
    → IsMirrored r
    → r.db ≡ some rows
    → Unique rows
    → get a (attach r.cfg r.json rows now).chairs ≡ restarted r.cfg now (get a r.chairs)
unfolding attach IsMirrored claim_of row_of get
get-restart r rows now a json k m e u =
    let start : Registry = record {
      cfg = r.cfg;
      json = r.json;
      chairs = [];
      db = some rows;
      emitted = [];
    } in
    let copied : get a rows ≡ rows_of r.json (get a r.chairs) = (rw e at m) a in
    get-hydrate_rows rows start now a u
    ∙ ap (λ o. read_back r.cfg r.json now a o none) copied
    ∙ elim (Option-cases (get a r.chairs)) [
      | inl absent ↦ rw absent refl
      | inr (c, there) ↦
          let own : c.agent_id ≡ a = AllEntries-get IsOwn a c r.chairs k.own there in
          rw there (ground (arith, own, json c.capabilities))
    ]
