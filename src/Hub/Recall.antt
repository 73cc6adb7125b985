-- ===== src/Hub/Recall.antt =====
-- src/services/AgentHubStore.ts: what is remembered is recalled until it expires.
use kovael.Common.{
  ℕ, ◌≡◌, refl, ap, ◌∙◌, String, not, ◌||◌, Option, none, some, Bool-cases, Option-cases, inl, inr,
  Bool, true, arith, ltb, ◌+◌, str_eq, if◌then◌else◌,
}
use kovael.Table.{get, set}
use kovael.Table.Laws.{get-set}
use kovael.Hub.{Hub, MemoryKind, memory, cache, Remembered, trimmed}
use kovael.Hub.Memory.{
  get_memory_value, upsert_memory_value, remembered, same_kind, is_expired, expiry,
}
use kovael.Hub.Calls.{settled}

-- What a read of a row gives.
abbrev pub shown : Option Remembered → MemoryKind → ℕ → Option String
shown none kind now = none
shown (some m) kind now =
    if not (same_kind m.kind kind) || is_expired m.expires_at now then none else some m.value

get-shown :
    (h : Hub) (key : String) (kind : MemoryKind) (now : ℕ)
    → (get_memory_value h key kind now).1 ≡ shown (get key h.memories) kind now
unfolding get_memory_value
get-shown h key kind now = elim (Option-cases (get key h.memories)) [
  | inl e ↦ rw (e, get_memory_value) refl
  | inr (m, e) ↦ elim (Bool-cases (not (same_kind m.kind kind) || is_expired m.expires_at now)) [
    | inl f ↦ rw (e, f, get_memory_value) refl
    | inr f ↦ rw (e, f, get_memory_value) refl
  ]
]

shown-remembered :
    (o : Option Remembered) (value : String) (kind kind' : MemoryKind) (ttl : Option ℕ)
    (now then_ : ℕ)
    → shown (some (remembered o value kind ttl now)) kind' then_ ≡ (
        if not (same_kind kind kind') || is_expired (expiry ttl now) then_
        then none
        else some value)
unfolding remembered
shown-remembered none value kind kind' ttl now then_ = refl
shown-remembered (some m) value kind kind' ttl now then_ = refl

-- A value that was stored with a time to live still has some of it.
abbrev pub lives : Option ℕ → ℕ → ℕ → Bool
lives none now then_ = true
lives (some ttl) now then_ = ltb then_ (now + ttl)

-- What was stored as one kind, read as another.
abbrev pub read_as : MemoryKind → MemoryKind → Option String → Option String
read_as memory memory o = o
read_as cache cache o = o
read_as memory cache o = none
read_as cache memory o = none

recalled :
    (kind kind' : MemoryKind) (ttl : Option ℕ) (now then_ : ℕ) (value : String)
    → (if not (same_kind kind kind') || is_expired (expiry ttl now) then_ then none else some value)
      ≡ read_as kind kind' (if lives ttl now then_ then some value else none)
unfolding same_kind is_expired expiry
recalled memory memory none now then_ value = refl
recalled memory memory (some t) now then_ value = ground arith
recalled cache cache none now then_ value = refl
recalled cache cache (some t) now then_ value = ground arith
recalled memory cache ttl now then_ value = refl
recalled cache memory ttl now then_ value = refl

-- After a value is stored under a key with its white space cut off, a read of that key as the same
-- kind gives the value until its time to live is over, as the other kind nothing, and a read of any
-- other key what it gave before.
pub get_memory_value-upsert :
    (h : Hub) (key k j value : String) (kind kind' : MemoryKind) (ttl : Option ℕ) (now then_ : ℕ)
    → trimmed (some key) ≡ some k
    → (get_memory_value (settled h (upsert_memory_value h key value kind ttl now)) j kind' then_).1
      ≡ (if str_eq k j
          then read_as kind kind' (if lives ttl now then_ then some value else none)
          else (get_memory_value h j kind' then_).1)
unfolding upsert_memory_value settled
get_memory_value-upsert h key k j value kind kind' ttl now then_ e =
    let m = remembered (get k h.memories) value kind ttl now in
    rw (e, upsert_memory_value, get-shown h j kind' then_)
      (get-shown (record h { memories = set k m h.memories }) j kind' then_
        ∙ ap (λ (o : Option Remembered). shown o kind' then_) (get-set k j m h.memories)
        ∙ elim (Bool-cases (str_eq k j)) [
          | inl f ↦ rw (f) (
              shown-remembered (get k h.memories) value kind kind' ttl now then_
              ∙ recalled kind kind' ttl now then_ value)
          | inr f ↦ rw (f) refl
        ])
