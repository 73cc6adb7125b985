-- ===== src/Examples/LogRuns.antt =====
-- src/services/CycleLog.ts: a cycle of two events, sealed, with trees for digests.
use kovael.Common.{ℕ, ◌≡◌, refl, String, some, List, [], ◌∷◌, length, true}
use kovael.Table.{get, set}
use kovael.CycleLog.{
  Event, Log, Act, appends, restarts, Hashing, cycle_started, task_claimed, cycle_sealed, open_log,
  next_seq, append, run, step, trail, seal_cycle, merkle_root, of_cycle, order_by_seq,
}
use kovael.Dispatches.{contains}
use kovael.CycleLog.Replay.{replay_open_cycles, any_row, is_closed}
use kovael.CycleLog.Open.{ids_of, replay_open_cycles-is_open}
use kovael.CycleLog.Merkle.{merkle_root-injective}
use kovael.CycleLog.Sequence.{
  created-IsGapless, run-trail, seqs, upto, seal_cycle-trail, next_seq-open_log,
}

-- A hash of pairs without collisions.
data Tree : Type 0 where
  leaf : ℕ → Tree
  node : Tree → Tree → Tree

node-injective : (a b c d : Tree) → node a b ≡ node c d → (a ≡ c) × (b ≡ d)
node-injective a b c d e = (cc, cc)

merkle_root-injective_example : leaf 1 ∷ leaf 2 ∷ leaf 3 ∷ [] ≡ leaf 1 ∷ leaf 2 ∷ leaf 3 ∷ []
merkle_root-injective_example =
    merkle_root-injective node node-injective (leaf 0) (leaf 1 ∷ leaf 2 ∷ leaf 3 ∷ [])
      (leaf 1 ∷ leaf 2 ∷ leaf 3 ∷ []) refl refl

abbrev acts : List Act
acts =
    appends "c1" cycle_started "mesh" "{}" 5
    ∷ appends "c2" cycle_started "mesh" "{}" 6
    ∷ restarts
    ∷ appends "c1" task_claimed "mesh" "{}" 7
    ∷ []

run-trail_example :
    let l = run (open_log []) acts in
    (trail l "c1" ≡ of_cycle "c1" l.rows) × (seqs (trail l "c1") ≡ upto 0 (length (trail l "c1")))
run-trail_example = run-trail acts "c1"

abbrev started : Event
started = record {
  cycle_id = "c1";
  seq = 0;
  kind = cycle_started;
  timestamp = 5;
  actor = "mesh";
  payload = "{}";
}

next_seq-open_log_example :
    next_seq (open_log (run (open_log []) acts).rows) "c1" ≡ next_seq (run (open_log []) acts) "c1"
next_seq-open_log_example = next_seq-open_log (run (open_log []) acts) "c1" (created-IsGapless acts)

abbrev trees : Hashing
trees = record { Digest = Tree; leaf = λ e. leaf e.seq; pair = node; of_empty = leaf 0 }

abbrev one_event : Log
one_event = run (open_log []) (appends "c1" cycle_started "mesh" "{}" 5 ∷ [])

abbrev receipt_text : Tree → ℕ → String
receipt_text root count = "{}"

abbrev seal_event : Event
seal_event = record {
  cycle_id = "c1";
  seq = 1;
  kind = cycle_sealed;
  timestamp = 9;
  actor = "orchestrator";
  payload = "{}";
}

seal_cycle-trail_example :
    let l' = (append one_event "c1" cycle_sealed "orchestrator" "{}" 9).0 in
    (seal_cycle trees receipt_text one_event "c1" 9
      ≡ some (l', record { cycle_id = "c1"; merkle_root = leaf 0; event_count = 1; sealed_at = 9 }))
    × (trail l' "c1" ≡ started ∷ seal_event ∷ [])
unfolding run step get set append next_seq trail merkle_root order_by_seq of_cycle
seal_cycle-trail_example =
    seal_cycle-trail trees receipt_text one_event "c1" 9 started []
      (created-IsGapless (appends "c1" cycle_started "mesh" "{}" 5 ∷ [])) refl

abbrev half_sealed : List Act
half_sealed = appends "c1" cycle_sealed "orchestrator" "{}" 9 ∷ []

replay_open_cycles-is_open_example :
    contains "c2" (ids_of (replay_open_cycles (run (run (open_log []) acts) half_sealed))) ≡ true
unfolding run step any_row is_closed
replay_open_cycles-is_open_example =
    replay_open_cycles-is_open (run (run (open_log []) acts) half_sealed) "c2"
