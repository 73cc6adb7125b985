-- ===== src/Hub/Memory.antt =====
-- src/services/AgentHubStore.ts: the agent's memory and cache, and the pruning of receipts.
use kovael.Common.{
  ℕ, ◌+◌, String, Bool, true, false, not, ◌&&◌, ◌||◌, Option, none, some, List, [], ◌∷◌, leb, ltb,
  ◌==◌, if◌then◌else◌,
}
use kovael.Table.{Table, get, set}
use kovael.Hub.{
  MemoryKind, memory, cache, Remembered, Hub, required, not_positive, Result, ok, err, trimmed,
  Receipt,
}

unfoldable pub same_kind : MemoryKind → MemoryKind → Bool
same_kind memory memory = true
same_kind cache cache = true
same_kind _ _ = false

unfoldable pub expiry : Option ℕ → ℕ → Option ℕ
expiry none now = none
expiry (some ttl) now = some (now + ttl)

-- `ON CONFLICT(key) DO UPDATE` keeps the creation and the accesses.
unfoldable pub remembered : Option Remembered → String → MemoryKind → Option ℕ → ℕ → Remembered
unfolding expiry
remembered none value kind ttl now = record {
  value = value;
  kind = kind;
  updated_at = now;
  created_at = now;
  expires_at = expiry ttl now;
  last_accessed_at = none;
  access_count = 0;
}
remembered (some m) value kind ttl now = record m {
  value = value;
  kind = kind;
  updated_at = now;
  expires_at = expiry ttl now;
}

unfoldable pub upsert_memory_value :
    Hub → String → String → MemoryKind → Option ℕ → ℕ → Result (Unit {0})
unfolding trimmed remembered
upsert_memory_value h key value kind ttl now = elim (trimmed (some key)) [
  | none ↦ err (required "memory key")
  | some k ↦
      ok
        (record h {
          memories = set k (remembered (get k h.memories) value kind ttl now) h.memories;
        })
        tt
]

unfoldable pub upsert_memory : Hub → String → String → Option ℕ → ℕ → Result (Unit {0})
unfolding upsert_memory_value
upsert_memory h key value ttl now = upsert_memory_value h key value memory ttl now

unfoldable pub upsert_cache : Hub → String → String → ℕ → ℕ → Result (Unit {0})
unfolding upsert_memory_value
upsert_cache h key value ttl now =
    if ttl == 0
    then err (not_positive "ttlMs")
    else upsert_memory_value h key value cache (some ttl) now

unfoldable pub is_expired : Option ℕ → ℕ → Bool
is_expired none now = false
is_expired (some t) now = leb t now

unfoldable pub get_memory_value : Hub → String → MemoryKind → ℕ → Hub × Option String
unfolding same_kind is_expired
get_memory_value h key kind now = elim (get key h.memories) [
  | none ↦ (h, none)
  | some m ↦ if not (same_kind m.kind kind) || is_expired m.expires_at now then (h, none) else (
    record h {
      memories =
          set key (record m { last_accessed_at = some now; access_count = m.access_count + 1 })
            h.memories;
    },
    some m.value,
  )
]

unfoldable pub get_memory : Hub → String → ℕ → Hub × Option String
unfolding get_memory_value
get_memory h key now = get_memory_value h key memory now

unfoldable pub get_cache : Hub → String → ℕ → Hub × Option String
unfolding get_memory_value
get_cache h key now = get_memory_value h key cache now

unfoldable pub is_stale_cache : ℕ → Remembered → Bool
unfolding same_kind is_expired
is_stale_cache now m = same_kind m.kind cache && is_expired m.expires_at now

unfoldable pub prune_memories : ℕ → Table Remembered → Table Remembered
unfolding is_stale_cache
prune_memories now [] = []
prune_memories now ((k, m) ∷ t) =
    let rest = prune_memories now t in if is_stale_cache now m then rest else (k, m) ∷ rest

unfoldable pub prune_expired_cache : Hub → ℕ → Hub
unfolding prune_memories
prune_expired_cache h now = record h { memories = prune_memories now h.memories }

unfoldable pub prune_receipts : ℕ → List Receipt → List Receipt
prune_receipts before [] = []
prune_receipts before (x ∷ xs) =
    let rest = prune_receipts before xs in if ltb x.created_at before then rest else x ∷ rest

unfoldable pub prune_old_receipts : Hub → ℕ → Hub
unfolding prune_receipts
prune_old_receipts h before = record h { receipts = prune_receipts before h.receipts }
