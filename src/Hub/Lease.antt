-- ===== src/Hub/Lease.antt =====
-- src/services/AgentHubStore.ts: a row of the outbox is leased to one worker at a time.
use kovael.Common.{All, ℕ, ◌+◌, ◌<◌, ◌≡◌, String, true, false, List, ◌==◌, Bool-cases, inl, inr}
use kovael.Dispatches.{contains}
use kovael.Hub.{Hub, Crypto}
use kovael.Hub.Outbox.{claim_due_outbox, chosen_ids, ids}
use kovael.Hub.Calls.{settled, Call, run}
use kovael.Hub.Leased.{claimed, keyed, all_out, taken, lease-out, out-chosen}
use kovael.Hub.Apart.{IsApart, run-out}

-- What a call of `claimDueOutbox` leaves of a row that it has returned.
claim-out :
    (h : Hub) (limit lease now : ℕ) (id key : String)
    → keyed id key h.outbox ≡ true
    → contains id (ids (claimed (claim_due_outbox h limit lease now))) ≡ true
    → all_out id key now (settled h (claim_due_outbox h limit lease now)).outbox ≡ true
unfolding claim_due_outbox settled ids contains
claim-out h limit lease now id key v m = elim (Bool-cases (limit == 0)) [
  | inl a ↦ let f = (rw (a, claim_due_outbox) at m) in cc
  | inr a ↦ elim (Bool-cases (lease == 0)) [
    | inl b ↦ let f = (rw (a, b, claim_due_outbox) at m) in cc
    | inr b ↦ elim (Bool-cases (contains id (chosen_ids now limit lease h.outbox))) [
      | inr c ↦ let f = taken h limit lease now id c in cc
      | inl c ↦
          rw (a, b, claim_due_outbox)
            (lease-out id key now (chosen_ids now limit lease h.outbox) h.outbox c v)
    ]
  ]
]

-- A row that a call of `claimDueOutbox` has returned is not returned again by a later call before that
-- call's own lease on the row is over, after any calls of which none reports a failed delivery of the
-- row, writes a reply over it, or claims rows when the lease on the row, by that call's length, is
-- over. The rows with its identifier have one key.
pub claim_due_outbox-exclusive :
    (k : Crypto) (h : Hub) (limit lease limit' lease' now then_ : ℕ) (id key : String)
    (cs : List (ℕ × Call))
    → keyed id key h.outbox ≡ true
    → contains id (ids (claimed (claim_due_outbox h limit lease now))) ≡ true
    → All (IsApart id key now) cs
    → then_ < now + lease'
    → contains id (
        ids (
          claimed (
            claim_due_outbox
              (run k (settled h (claim_due_outbox h limit lease now)) cs)
              limit'
              lease'
              then_)))
      ≡ false
claim_due_outbox-exclusive k h limit lease limit' lease' now then_ id key cs v m a l =
    let h' = run k (settled h (claim_due_outbox h limit lease now)) cs in
    taken h' limit' lease' then_ id (
      out-chosen id key now then_ limit' lease' h'.outbox l (
        run-out k id key now cs (settled h (claim_due_outbox h limit lease now)) a
          (claim-out h limit lease now id key v m)))
