-- ===== src/Reconciler/Sweep.antt =====
-- src/services/Reconciler.ts: what a sweep does to each claim.
use kovael.Common.{
  ℕ, suc, ◌+◌, ◌-◌, ◌<◌, ◌≡◌, refl, ◌∙◌, ap, sym, String, true, false, Option, none, some, [], ◌∷◌,
  leb, str_eq, eq_iff, if◌then◌else◌, arith, Bool-cases, inl, inr,
}
use kovael.Table.{Table, get, values}
use kovael.Table.Laws.{Unique, get-delete}
use kovael.Table.Entries.{AllEntries}
use kovael.Claims.{
  ClaimState, claimed, running, released, ClaimRecord, same, prune, releases, moved, given,
}
use kovael.Claims.Laws.{get-release, task_after}
use kovael.Claims.Keyed.{IsOwn, IsKeyed}
use kovael.Reconciler.{
  Config, Reconciler, is_stalled, is_expired, stall_reason, sweep_one, sweep_all, sweep,
}

-- A claim after a sweep: a stalled one is released, an old released one is gone.
abbrev pub reconciled_from : ClaimState → Config → ℕ → ClaimRecord → Option ClaimRecord
reconciled_from claimed cfg now c =
    if leb (c.updated_at + cfg.stall_timeout_ms) now
    then some (record c { state = released; updated_at = now })
    else some c
reconciled_from running cfg now c =
    if leb (c.updated_at + cfg.stall_timeout_ms) now
    then some (record c { state = released; updated_at = now })
    else some c
reconciled_from released cfg now c =
    if leb (c.updated_at + cfg.cleanup_after_ms) now then none else some c
reconciled_from _ cfg now c = some c

abbrev pub reconciled? : Config → ℕ → Option ClaimRecord → Option ClaimRecord
reconciled? cfg now none = none
reconciled? cfg now (some c) = reconciled_from c.state cfg now c

-- A claim's entry after the round of the loop that is about it.
abbrev after_round : Config → ℕ → ClaimRecord → Option ClaimRecord → Option ClaimRecord
after_round cfg now c o =
    if is_stalled cfg now c
    then task_after (releases c.task_hash "") now o
    else if is_expired cfg now c
    then none
    else o

sweep_one-cfg : (r : Reconciler) (now : ℕ) (c : ClaimRecord) → (sweep_one r now c).cfg ≡ r.cfg
unfolding sweep_one
sweep_one-cfg r now c = ground arith

get-sweep_one :
    (r : Reconciler) (now : ℕ) (c : ClaimRecord) (h : String)
    → get h (sweep_one r now c).claims.ledger ≡ (
        if str_eq c.task_hash h
        then after_round r.cfg now c (get h r.claims.ledger)
        else get h r.claims.ledger)
unfolding sweep_one prune
get-sweep_one r now c h = ground (
  arith,
  get-release r.claims c.task_hash h (stall_reason c.state (now - c.updated_at)) now,
  get-delete c.task_hash h r.claims.ledger,
)

abbrev after_rounds : Config → ℕ → Option ClaimRecord → Option ClaimRecord → Option ClaimRecord
after_rounds cfg now none o = o
after_rounds cfg now (some c) o = after_round cfg now c o

get-sweep_all :
    (t : Table ClaimRecord) (r : Reconciler) (now : ℕ) (h : String)
    → Unique t
    → AllEntries IsOwn t
    → get h (sweep_all r now (values t)).claims.ledger
      ≡ after_rounds r.cfg now (get h t) (get h r.claims.ledger)
unfolding sweep_all get
get-sweep_all [] r now h u o = refl
get-sweep_all ((k, c) ∷ t) r now h u o =
    let ih = get-sweep_all t (sweep_one r now c) now h u.1 o.1 in
    let cfg = sweep_one-cfg r now c in
    let one = get-sweep_one r now c h in
    ih ∙ elim (Bool-cases (str_eq k h)) [
      | inl own ↦
          let missing : get h t ≡ none = ap (λ x. get x t) (sym ((eq_iff k h).0 own)) ∙ u.0 in
          let own' : str_eq c.task_hash h ≡ true = rw o.0 own in
          rw (missing, own) (one ∙ rw own' refl)
      | inr other ↦
          let other' : str_eq c.task_hash h ≡ false = rw o.0 other in
          rw (other, cfg) (ap (after_rounds r.cfg now (get h t)) (one ∙ rw other' refl))
    ]

after_rounds-reconciled :
    (cfg : Config) (now : ℕ) (o : Option ClaimRecord)
    → after_rounds cfg now o o ≡ reconciled? cfg now o
unfolding is_stalled is_expired same moved given
after_rounds-reconciled cfg now none = refl
after_rounds-reconciled cfg now (some c) = ground arith

-- A sweep of a keyed ledger releases a claim that is claimed or running from the stall limit on,
-- removes a released one from the cleanup limit on, and leaves every other claim untouched.
pub sweep-reconciled :
    (r : Reconciler) (now : ℕ) (h : String)
    → IsKeyed r.claims
    → get h (sweep r now).claims.ledger ≡ reconciled? r.cfg now (get h r.claims.ledger)
unfolding sweep
sweep-reconciled r now h v =
    get-sweep_all r.claims.ledger (record r { sweep_count = suc r.sweep_count }) now h v.unique
      v.own
    ∙ after_rounds-reconciled r.cfg now (get h r.claims.ledger)

reconciled-fresh :
    (cfg : Config) (now : ℕ) (o : Option ClaimRecord) (c : ClaimRecord)
    → 0 < cfg.stall_timeout_ms
    → reconciled? cfg now o ≡ some c
    → is_stalled cfg now c ≡ false
unfolding is_stalled same
reconciled-fresh cfg now none c p e = ground arith
reconciled-fresh cfg now (some b) c p e = ground arith

-- With a positive stall timeout no claim that a sweep of a keyed ledger leaves is stalled.
pub sweep_settled :
    (r : Reconciler) (now : ℕ) (h : String) (c : ClaimRecord)
    → IsKeyed r.claims
    → 0 < r.cfg.stall_timeout_ms
    → get h (sweep r now).claims.ledger ≡ some c
    → is_stalled r.cfg now c ≡ false
sweep_settled r now h c v p e =
    reconciled-fresh r.cfg now (get h r.claims.ledger) c p (sym (sweep-reconciled r now h v) ∙ e)
