-- ===== src/Hooks.antt =====
-- src/services/HookRunner.ts: the hooks around a cycle, each under its own timeout.
--
-- What a handler does is a function of its context into the time that it takes, before and after
-- it hands control back, and the message with which it fails. A handler that does not wait settles
-- before the timer can fire. The events go to a list, newest first.
pub mod Abort
use kovael.Common.{
  ℕ, zero, suc, ◌+◌, String, Bool, true, false, not, ◌&&◌, ◌||◌, Option, none, some, List, [], ◌∷◌,
  ◌++◌, leb, ltb, max, length, or_default, str_eq, if◌then◌else◌, ◌+++◌, decimal,
}

pub data HookEvent : Type 0 where
  after_create before_run after_run before_remove : HookEvent

unfoldable pub same : HookEvent → HookEvent → Bool
same after_create after_create = true
same before_run before_run = true
same after_run after_run = true
same before_remove before_remove = true
same _ _ = false

pub record Behaviour : Type 0 where
  pub sync_ms : ℕ
  pub async_ms : ℕ
  pub throws : Option String

pub record Handler (C : Type 0) : Type 0 where
  pub name : String
  pub event : HookEvent
  pub fn : C → Behaviour
  pub timeout_ms : ℕ

pub record HookResult : Type 0 where
  pub name : String
  pub event : HookEvent
  pub success : Bool
  pub duration_ms : ℕ
  pub timed_out : Bool
  pub error : Option String

-- The set ABORT_ON_FAILURE.
unfoldable pub aborts : HookEvent → Bool
aborts after_create = true
aborts before_run = true
aborts after_run = false
aborts before_remove = false

unfoldable pub failing : HookResult → Bool
failing r = not r.success

unfoldable pub any_failed : List HookResult → Bool
unfolding failing
any_failed [] = false
any_failed (r ∷ rs) = failing r || any_failed rs

unfoldable pub should_abort : HookEvent → List HookResult → Bool
unfolding aborts any_failed
should_abort e rs = if not (aborts e) then false else any_failed rs

-- The map from an event to its handlers, in the order of registration.
pub record Runner (C : Type 0) : Type 0 where
  pub handlers : HookEvent → List (Handler C)
  pub emitted : List HookResult

unfoldable pub timeout_text : ℕ → String
unfolding decimal ◌+++◌
timeout_text t = "hook_timeout_" +++ decimal t +++ "ms"

unfoldable pub emit_all : List HookResult → List HookResult → List HookResult
emit_all [] old = old
emit_all (r ∷ rs) old = emit_all rs (r ∷ old)

abbrev pub create : (C : Type 0) → Runner C
create C = record { handlers = λ e. []; emitted = [] }

module _ {C : Type 0} where
  unfoldable pub set_list : Runner C → HookEvent → List (Handler C) → Runner C
  unfolding same
  set_list r event l = record r { handlers = λ e. if same e event then l else r.handlers e }

  -- `timeoutMs ?? DEFAULT_TIMEOUT_MS`
  unfoldable pub register : Runner C → String → HookEvent → (C → Behaviour) → Option ℕ → Runner C
  unfolding set_list
  register r name event fn timeout = set_list r event (
      r.handlers event
      ++ record { name = name; event = event; fn = fn; timeout_ms = or_default timeout 60_000 }
        ∷ [])

  unfoldable pub without : String → List (Handler C) → List (Handler C)
  without name [] = []
  without name (h ∷ hs) = let rest = without name hs in if str_eq h.name name then hs else h ∷ rest

  unfoldable pub is_listed : String → List (Handler C) → Bool
  is_listed name [] = false
  is_listed name (h ∷ hs) = str_eq h.name name || is_listed name hs

  unfoldable pub unregister : Runner C → HookEvent → String → Runner C × Bool
  unfolding set_list without is_listed
  unregister r event name =
      if is_listed name (r.handlers event)
      then (set_list r event (without name (r.handlers event)), true)
      else (r, false)

  -- The timer was started first, and fires only while the handler waits.
  unfoldable pub times_out : Handler C → C → Bool
  times_out h ctx =
      ltb 0 (h.fn ctx).async_ms && leb h.timeout_ms ((h.fn ctx).sync_ms + (h.fn ctx).async_ms)

  unfoldable pub run_one : Handler C → C → HookResult
  unfolding times_out timeout_text
  run_one h ctx =
      let late = times_out h ctx in
      let took = (h.fn ctx).sync_ms + (h.fn ctx).async_ms in
      let error = if late then some (timeout_text h.timeout_ms) else (h.fn ctx).throws in
      record {
        name = h.name;
        event = h.event;
        success = elim error [ none ↦ true | some _ ↦ false ];
        duration_ms = if late then max (h.fn ctx).sync_ms h.timeout_ms else took;
        timed_out = late;
        error = error;
      }

  -- The loop of `run`, over the handlers of the event.
  unfoldable pub run_list : HookEvent → List (Handler C) → C → List HookResult
  unfolding run_one aborts failing
  run_list event [] ctx = []
  run_list event (h ∷ hs) ctx =
      let rest = run_list event hs ctx in
      let r = run_one h ctx in if failing r && aborts event then r ∷ [] else r ∷ rest

  unfoldable pub run : Runner C → HookEvent → C → Runner C × List HookResult
  unfolding run_list emit_all
  run r event ctx =
      let rs = run_list event (r.handlers event) ctx in
      (record r { emitted = emit_all rs r.emitted }, rs)

  unfoldable pub stats : Runner C → HookEvent → ℕ
  stats r e = length (r.handlers e)
