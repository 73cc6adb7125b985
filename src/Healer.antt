-- ===== src/Healer.antt =====
-- src/services/SelfHealer.ts: the repair of a failed cycle by a patch that the tests must accept.
--
-- The world is what git, the tests and the clock see and change; each command is a function on it
-- that may fail with a message. `extractRepairPatch`, `validateRepairPatch` and `redactReason` are
-- arguments, here any functions of the receipt, the patch and the reason.
pub mod Rollback
use kovael.Common.{
  ℕ, zero, suc, ◌+◌, String, Bool, true, false, not, ◌&&◌, Option, none, some, List, [], ◌∷◌, ◌==◌,
  str_eq, length, ltb, or_default, if◌then◌else◌, ◌+++◌,
}
use text.Mathlib.Text.{starts_with}

pub record Options : Type 0 where
  pub max_attempts : ℕ
  pub test_command : List String
  pub branch_name : Option String
  pub auto_apply : Bool
  pub commit_on_green : Bool
  pub allowed_branch_prefixes : List String

pub data EventType : Type 0 where
  skipped_ patch_applied patch_reverted failed_ : EventType

pub record HealEvent : Type 0 where
  pub type : EventType
  pub cycle_id : String
  pub task_hash : String
  pub attempt : ℕ
  pub reason : Option String
  pub timestamp : ℕ

pub data Status : Type 0 where
  skipped applied reverted failed : Status

pub record HealResult : Type 0 where
  pub status : Status
  pub attempts : ℕ
  pub reason : Option String

-- The fields of a receipt that are read.
pub record Receipt : Type 0 where
  pub cycle_id : String
  pub task_hash : String
  pub is_failed : Bool
  pub evidence : String

-- The commands. The first three only read: the branch and the status may fail, and `check` gives
-- the message with which the patch is refused.
pub record Commands (W : Type 0) : Type 0 where
  pub clock : W → ℕ
  pub branch : W → Option String
  pub git_status : W → Option String
  pub check : String → W → Option String
  pub apply : String → W → W × Option String
  pub test : W → W × Option String
  pub commit : W → W × Option String
  pub reverse : String → W → W × Option String

pub record Guards : Type 0 where
  pub extract : String → Option String
  pub refuse : String → Option String
  pub redact : String → String

pub record Healer (W : Type 0) : Type 0 where
  pub world : W
  pub emitted : List HealEvent

unfoldable pub some_prefix : List String → String → Bool
some_prefix [] b = false
some_prefix (p ∷ ps) b = let rest = some_prefix ps b in if starts_with b p then true else rest

unfoldable pub is_branch_allowed : Options → String → Bool
unfolding some_prefix
is_branch_allowed o b = not (str_eq b "") && some_prefix o.allowed_branch_prefixes b

module _ {W : Type 0} (c : Commands W) (g : Guards) (o : Options) (r : Receipt) where
  unfoldable pub emit_event : Healer W → EventType → ℕ → Option String → Healer W
  emit_event h type attempt reason = record h {
    emitted =
        record {
          type = type;
          cycle_id = r.cycle_id;
          task_hash = r.task_hash;
          attempt = attempt;
          reason = elim reason [
            | none ↦ none
            | some s ↦ if str_eq s "" then none else some (g.redact s)
          ];
          timestamp = c.clock h.world;
        }
        ∷ h.emitted;
  }

  unfoldable pub skip : Healer W → String → Healer W × HealResult
  unfolding emit_event
  skip h reason = (
    emit_event h skipped_ 0 (some (g.redact reason)),
    record { status = skipped; attempts = 0; reason = some (g.redact reason) },
  )

  unfoldable pub give_up : Healer W → Status → ℕ → String → Healer W × Option HealResult
  unfolding emit_event
  give_up h status attempt reason = (
    emit_event h failed_ attempt (some reason),
    some (record { status = status; attempts = attempt; reason = some reason }),
  )

  -- The tests, and the commit where it is asked for.
  unfoldable pub green : W → W × Option String
  green w =
      let (w', e) = c.test w in
      elim e [
        | some s ↦ (w', some s)
        | none ↦ if o.commit_on_green then c.commit w' else (w', none)
      ]

  -- After the patch has been taken back, or not.
  unfoldable pub after_reverse :
      Healer W → ℕ → String → Option String → Healer W × Option HealResult
  unfolding emit_event give_up
  after_reverse h attempt reason (some s) = give_up h failed attempt "rollback_failed"
  after_reverse h attempt reason none =
      let h' = emit_event h patch_reverted attempt (some reason) in
      if attempt == o.max_attempts then give_up h' reverted attempt reason else (h', none)

  -- After the tests, with the patch applied.
  unfoldable pub after_green : Healer W → String → ℕ → Option String → Healer W × Option HealResult
  unfolding after_reverse
  after_green h patch attempt none =
      (h, some (record { status = applied; attempts = attempt; reason = none }))
  after_green h patch attempt (some s) =
      let (w, e) = c.reverse patch h.world in
      after_reverse (record h { world = w }) attempt (g.redact s) e

  unfoldable pub after_apply : Healer W → String → ℕ → Option String → Healer W × Option HealResult
  unfolding give_up emit_event green after_green
  after_apply h patch attempt (some s) = give_up h failed attempt (g.redact s)
  after_apply h patch attempt none =
      let h' = emit_event h patch_applied attempt none in
      let (w, e) = green h'.world in after_green (record h' { world = w }) patch attempt e

  unfoldable pub after_check : Healer W → String → ℕ → Option String → Healer W × Option HealResult
  unfolding give_up after_apply
  after_check h patch attempt (some s) = give_up h failed attempt (g.redact s)
  after_check h patch attempt none =
      let (w, e) = c.apply patch h.world in after_apply (record h { world = w }) patch attempt e

  -- The result of an attempt, or the rest of the loop.
  unfoldable pub carry_on :
      (Healer W → Healer W × HealResult) → Healer W × Option HealResult → Healer W × HealResult
  carry_on rest (h, some x) = (h, x)
  carry_on rest (h, none) = rest h

  -- The loop over the attempts, with those that are left.
  unfoldable pub heal_from : ℕ → Healer W → String → ℕ → Healer W × HealResult
  unfolding after_check carry_on
  heal_from zero h patch attempt =
      (h, record { status = failed; attempts = o.max_attempts; reason = some "unreachable" })
  heal_from (suc left) h patch attempt =
      carry_on (λ h'. heal_from left h' patch (attempt + 1))
        (after_check h patch attempt (c.check patch h.world))

  unfoldable pub with_patch : Healer W → String → Option (Healer W × HealResult)
  unfolding heal_from skip
  with_patch h patch = elim (g.refuse patch) [
    | some why ↦ some (skip h why)
    | none ↦ elim (c.git_status h.world) [
      | none ↦ none
      | some s ↦
          if not (str_eq s "")
          then some (skip h "dirty_worktree")
          else some (heal_from o.max_attempts h patch 1)
    ]
  ]

  unfoldable pub on_branch : Healer W → String → Option (Healer W × HealResult)
  unfolding with_patch is_branch_allowed skip ◌+++◌
  on_branch h branch =
      if not (is_branch_allowed o branch)
      then some (skip h ("unsafe_branch:" +++ (if str_eq branch "" then "detached" else branch)))
      else elim (g.extract r.evidence) [
        | none ↦ some (skip h "no_repair_patch_available")
        | some patch ↦ with_patch h patch
      ]

  -- `none` is the rejection of the promise when git cannot be asked.
  unfoldable pub repair_from_receipt : Healer W → Option (Healer W × HealResult)
  unfolding on_branch skip
  repair_from_receipt h =
      if not r.is_failed
      then some (skip h "receipt_not_failed")
      else if not o.auto_apply
      then some (skip h "auto_apply_disabled")
      else if length o.test_command == 0
      then some (skip h "missing_test_command")
      else elim o.branch_name [
        | some b ↦ on_branch h b
        | none ↦ elim (c.branch h.world) [ none ↦ none | some b ↦ on_branch h b ]
      ]
