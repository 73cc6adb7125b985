-- ===== src/Bridge/Shards.antt =====
-- src/MevBridge.ts: which part of a history the architect gets.
use kovael.Common.{
  ℕ, zero, suc, ◌+◌, ◌-◌, ◌≤◌, ◌<◌, ◌≡◌, refl, ap, Bool, true, false, Option, none, some, List, [],
  ◌∷◌, arith, ltb, ◌==◌, length, last_n, drop, length-drop, if◌then◌else◌,
}
use kovael.Bridge.{Message, is_system, find_system, tail_of, shard_context}

-- A system message is among the messages.
abbrev pub has_system : List Message → Bool
has_system [] = false
has_system (m ∷ ms) = let rest = has_system ms in if is_system m then true else rest

find_system-has :
    (n : ℕ) (ms : List Message)
    → has_system ms ≡ elim (find_system n ms) [ none ↦ false | some _ ↦ true ]
unfolding find_system
find_system-has n [] = refl
find_system-has n (m ∷ ms) = ground (arith, find_system-has (n + 1) ms)

-- The messages before the first system message, and that message.
find_system-first :
    (n i : ℕ) (ms : List Message) (m : Message)
    → find_system n ms ≡ some (i, m)
    → (n ≤ i) × (is_system m ≡ true) × (i < n + length ms)
unfolding find_system
find_system-first n i [] m e = ground arith
find_system-first n i (x ∷ ms) m e = ground (arith, find_system-first (n + 1) i ms m)

-- A system message that stands at or after a place is still there when what is before is dropped.
has_system-drop :
    (k n i : ℕ) (ms : List Message) (m : Message)
    → find_system n ms ≡ some (i, m)
    → n + k ≤ i
    → has_system (drop k ms) ≡ true
unfolding find_system drop
has_system-drop zero n i [] m e l = ground arith
has_system-drop zero n i (x ∷ ms) m e l = ground (arith, find_system-has (n + 1) ms)
has_system-drop (suc k) n i [] m e l = ground arith
has_system-drop (suc k) n i (x ∷ ms) m e l = ground (arith, has_system-drop k (n + 1) i ms m)

has_system-drop_none :
    (k : ℕ) (ms : List Message) → has_system ms ≡ false → has_system (drop k ms) ≡ false
unfolding drop
has_system-drop_none zero ms e = e
has_system-drop_none (suc k) [] e = refl
has_system-drop_none (suc k) (x ∷ ms) e = ground (arith, has_system-drop_none k ms)

-- How many messages stand before the tail.
abbrev before_tail : List Message → ℕ → ℕ
before_tail history keep = if keep == 0 then 0 else length history - keep

tail_of-drop :
    (history : List Message) (keep : ℕ)
    → tail_of history keep ≡ drop (before_tail history keep) history
unfolding tail_of last_n drop
tail_of-drop history keep = ground arith

shard-has_system :
    (history tail : List Message) (k : ℕ) (o : Option (ℕ × Message))
    → find_system 0 history ≡ o
    → tail ≡ drop k history
    → has_system (elim o [
      | none ↦ tail
      | some (n, m) ↦ if ltb (n + length tail) (length history) then m ∷ tail else tail
    ])
      ≡ has_system history
shard-has_system history tail k none e t =
    ground (arith, find_system-has 0 history, has_system-drop_none k history)
shard-has_system history tail k (some (i, m)) e t = ground (
  arith,
  find_system-has 0 history,
  find_system-first 0 i history m e,
  has_system-drop k 0 i history m e,
  ap length t,
  length-drop k history,
)

shard-length :
    (tail : List Message) (total keep : ℕ) (o : Option (ℕ × Message))
    → length tail ≤ keep
    → length (elim o [
      | none ↦ tail
      | some (n, m) ↦ if ltb (n + length tail) total then m ∷ tail else tail
    ])
      ≤ suc keep
shard-length tail total keep none h = omega (arith, h)
shard-length tail total keep (some (n, m)) h = ground arith

-- The architect gets the last messages of the number to keep, all of them for zero, and in front
-- of them at most one more; there is a system message among these exactly if the history has one.
pub shard_context-has_system :
    (history : List Message) (keep : ℕ)
    → (has_system (shard_context history keep) ≡ has_system history)
      × (length (shard_context history keep) ≤ suc (if keep == 0 then length history else keep))
unfolding shard_context
shard_context-has_system history keep =
    let t = tail_of-drop history keep in
    (
      shard-has_system history (tail_of history keep) (before_tail history keep)
          (find_system 0 history) refl t,
      shard-length (tail_of history keep) (length history)
          (if keep == 0 then length history else keep) (find_system 0 history)
          (ground (arith, ap length t, length-drop (before_tail history keep) history)),
    )
