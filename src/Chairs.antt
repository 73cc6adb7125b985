-- ===== src/Chairs.antt =====
-- src/services/ChairRegistry.ts: the chairs that live agents hold, and their rows on disk.
--
-- The table `chair_claims` has one row for each agent: its upsert is a write and its delete a
-- removal. `crypto.randomUUID()` is the session given to `claim`; JSON is an encoder and a decoder.
-- A reason is kept as a constructor for each text that the source builds.
pub mod Keyed
pub mod Sweep
pub mod Mirror
pub mod Restart
pub mod Sessions
use kovael.Common.{
  ℕ, suc, ◌+◌, ◌-◌, String, Bool, true, false, not, ◌&&◌, Option, none, some, List, [], ◌∷◌, leb,
  ltb, str_eq, or_default, if◌then◌else◌,
}
use kovael.Table.{Table, get, set, delete, values, size}

pub data Status : Type 0 where
  online stale offline : Status

pub record Chair : Type 0 where
  pub agent_id : String
  pub session_id : String
  pub provider : String
  pub capabilities : List String
  pub trust_tier : ℕ
  pub claimed_at : ℕ
  pub last_beacon_at : ℕ
  pub status : Status
  pub host : Option String
  pub note : Option String
  pub inbox_url : Option String

pub record Row : Type 0 where
  pub session_id : String
  pub provider : String
  pub capabilities : String
  pub trust_tier : ℕ
  pub claimed_at : ℕ
  pub last_beacon_at : ℕ
  pub status : Status
  pub host : Option String
  pub note : Option String
  pub inbox_url : Option String

pub data EventKind : Type 0 where
  claimed heartbeats released_ went_stale expired : EventKind

pub data Reason : Type 0 where
  superseded_by_new_claim client_release : Reason
  text : String → Reason
  revived_from : Status → Reason
  ttl_exceeded beacon_age : ℕ → Reason

pub record ChairEvent : Type 0 where
  pub kind : EventKind
  pub agent_id : String
  pub session_id : String
  pub status : Status
  pub timestamp : ℕ
  pub chair : Option Chair
  pub reason : Option Reason

pub record Config : Type 0 where
  pub healthy_ms : ℕ
  pub offline_ms : ℕ

abbrev pub default_config : Config
default_config = record { healthy_ms = 15_000; offline_ms = 30_000 }

-- `JSON.stringify` and `JSON.parse` on lists of capabilities.
pub record Json : Type 0 where
  pub encode : List String → String
  pub decode : String → Option (List String)

-- `db` is absent in a registry without a database.
pub record Registry : Type 0 where
  pub cfg : Config
  pub json : Json
  pub chairs : Table Chair
  pub db : Option (Table Row)
  pub emitted : List ChairEvent

unfoldable pub row_of : Json → Chair → Row
row_of j c = record {
  session_id = c.session_id;
  provider = c.provider;
  capabilities = j.encode c.capabilities;
  trust_tier = c.trust_tier;
  claimed_at = c.claimed_at;
  last_beacon_at = c.last_beacon_at;
  status = c.status;
  host = c.host;
  note = c.note;
  inbox_url = c.inbox_url;
}

unfoldable pub persist : Registry → Chair → Registry
unfolding row_of
persist r c = elim r.db [
  | none ↦ r
  | some t ↦ record r { db = some (set c.agent_id (row_of r.json c) t) }
]

unfoldable pub erase : Registry → String → Registry
erase r a = elim r.db [ none ↦ r | some t ↦ record r { db = some (delete a t) } ]

unfoldable pub emit : Registry → ChairEvent → Registry
emit r e = record r { emitted = e ∷ r.emitted }

unfoldable pub store : Registry → Chair → Registry
store r c = record r { chairs = set c.agent_id c r.chairs }

unfoldable pub remove : Registry → String → Registry
remove r a = record r { chairs = delete a r.chairs }

-- The claim of a row that is read back: stale until a fresh heartbeat.
unfoldable pub claim_of : Json → String → Row → Chair
claim_of j a w = record {
  agent_id = a;
  session_id = w.session_id;
  provider = w.provider;
  capabilities = or_default (j.decode w.capabilities) [];
  trust_tier = w.trust_tier;
  claimed_at = w.claimed_at;
  last_beacon_at = w.last_beacon_at;
  status = stale;
  host = w.host;
  note = w.note;
  inbox_url = w.inbox_url;
}

-- The loop of `hydrate`, over the rows that were selected: `lastBeaconAt < now - offlineMs` is
-- written as a sum.
unfoldable pub hydrate_rows : Registry → ℕ → Table Row → Registry
hydrate_rows r now [] = r
hydrate_rows r now ((a, w) ∷ rows) =
    let c = claim_of r.json a w in
    hydrate_rows
      (if ltb (w.last_beacon_at + r.cfg.offline_ms) now then erase r a else persist (store r c) c)
      now rows

-- The constructor with a database.
unfoldable pub attach : Config → Json → Table Row → ℕ → Registry
unfolding hydrate_rows
attach cfg j rows now =
    hydrate_rows (record { cfg = cfg; json = j; chairs = []; db = some rows; emitted = [] }) now
      rows

pub record Input : Type 0 where
  pub agent_id : String
  pub provider : String
  pub capabilities : Option (List String)
  pub trust_tier : Option ℕ
  pub host : Option String
  pub note : Option String
  pub inbox_url : Option String

unfoldable pub new_claim : Input → String → ℕ → Chair
new_claim i session now = record {
  agent_id = i.agent_id;
  session_id = session;
  provider = i.provider;
  capabilities = or_default i.capabilities [];
  trust_tier = or_default i.trust_tier 3;
  claimed_at = now;
  last_beacon_at = now;
  status = online;
  host = i.host;
  note = i.note;
  inbox_url = i.inbox_url;
}

unfoldable pub gone : EventKind → Chair → ℕ → Reason → ChairEvent
gone kind c now reason = record {
  kind = kind;
  agent_id = c.agent_id;
  session_id = c.session_id;
  status = offline;
  timestamp = now;
  chair = none;
  reason = some reason;
}

unfoldable pub seen : EventKind → Chair → ℕ → Option Reason → ChairEvent
seen kind c now reason = record {
  kind = kind;
  agent_id = c.agent_id;
  session_id = c.session_id;
  status = c.status;
  timestamp = now;
  chair = some c;
  reason = reason;
}

unfoldable pub supersede : Registry → String → ℕ → Registry
unfolding emit gone
supersede r a now = elim (get a r.chairs) [
  | none ↦ r
  | some old ↦ emit r (gone released_ old now superseded_by_new_claim)
]

unfoldable pub claim : Registry → Input → String → ℕ → Registry × Chair
unfolding new_claim supersede store persist emit seen
claim r i session now =
    let c = new_claim i session now in
    (emit (persist (store (supersede r i.agent_id now) c) c) (seen claimed c now none), c)

unfoldable pub is_online : Status → Bool
is_online online = true
is_online _ = false

unfoldable pub is_stale : Status → Bool
is_stale stale = true
is_stale _ = false

unfoldable pub beat : Chair → Option String → ℕ → Chair
beat c memo now = record c {
  last_beacon_at = now;
  status = online;
  note = elim memo [ none ↦ c.note | some n ↦ some n ];
}

unfoldable pub beat_event : Chair → Chair → ℕ → ChairEvent
unfolding seen is_online
beat_event old c now =
    if is_online old.status
    then seen heartbeats c now none
    else seen claimed c now (some (revived_from old.status))

unfoldable pub heartbeat : Registry → String → String → Option String → ℕ → Registry × Option Chair
unfolding beat beat_event store persist emit
heartbeat r a session memo now = elim (get a r.chairs) [
  | none ↦ (r, none)
  | some c ↦ if not (str_eq c.session_id session) then (r, none) else (
    emit (persist (store r (beat c memo now)) (beat c memo now))
        (beat_event c (beat c memo now) now),
    some (beat c memo now),
  )
]

unfoldable pub release : Registry → String → String → Reason → ℕ → Registry × Bool
unfolding remove erase emit gone
release r a session reason now = elim (get a r.chairs) [
  | none ↦ (r, false)
  | some c ↦
      if not (str_eq c.session_id session)
      then (r, false)
      else (emit (erase (remove r a) a) (gone released_ c now reason), true)
]

-- One round of the loop of `sweep`; `age >= limit` is written as a sum.
unfoldable pub sweep_one : Registry → ℕ → Chair → Registry
unfolding is_stale gone seen
sweep_one r now c =
    let age = now - c.last_beacon_at in
    let old = record c { status = stale } in
    if leb (c.last_beacon_at + r.cfg.offline_ms) now
    then emit (erase (remove r c.agent_id) c.agent_id) (gone expired c now (ttl_exceeded age))
    else if leb (c.last_beacon_at + r.cfg.healthy_ms) now && not (is_stale c.status)
    then emit (persist (store r old) old) (seen went_stale old now (some (beacon_age age)))
    else r

unfoldable pub sweep_all : Registry → ℕ → List Chair → Registry
sweep_all r now [] = r
sweep_all r now (c ∷ cs) = sweep_all (sweep_one r now c) now cs

unfoldable pub sweep : Registry → ℕ → Registry
unfolding sweep_all
sweep r now = sweep_all r now (values r.chairs)

unfoldable pub count_status : (Status → Bool) → List Chair → ℕ
count_status p [] = 0
count_status p (c ∷ cs) = let rest = count_status p cs in if p c.status then suc rest else rest

-- The numbers of all chairs, of those online and of those stale.
unfoldable pub stats : Registry → ℕ × ℕ × ℕ
unfolding count_status is_online is_stale
stats r = (
  size r.chairs,
  count_status is_online (values r.chairs),
  count_status is_stale (values r.chairs),
)

pub data Call : Type 0 where
  claims : Input → String → Call
  beats : String → String → Option String → Call
  releases : String → String → Reason → Call
  sweeps : Call

unfoldable pub step : Registry → ℕ × Call → Registry
unfolding claim heartbeat release sweep
step r (now, claims i session) = (claim r i session now).0
step r (now, beats a session memo) = (heartbeat r a session memo now).0
step r (now, releases a session reason) = (release r a session reason now).0
step r (now, sweeps) = sweep r now

unfoldable pub run : Registry → List (ℕ × Call) → Registry
run r [] = r
run r (c ∷ cs) = run (step r c) cs
