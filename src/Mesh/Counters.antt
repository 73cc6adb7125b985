-- ===== src/Mesh/Counters.antt =====
-- src/MeshOrchestrator.ts: the map of active cycles keeps its bound.
use kovael.Common.{ℕ, suc, ◌≤◌, ap, List, [], ◌∷◌, arith}
use kovael.Table.{Table, set, size}
use kovael.Table.Laws.{Unique, set-Unique, size-set, delete-Unique, delete_first}
use kovael.Triad.{PhaseEvent}
use kovael.Mesh.{note_phase, note_phases, drop_first, max_active_cycles}

abbrev pub IsBounded : Table PhaseEvent → Type 0
IsBounded t = Unique t × (size t ≤ max_active_cycles)

drop_first-Unique : (t : Table PhaseEvent) → Unique t → Unique (drop_first t)
unfolding drop_first
drop_first-Unique [] u = tt
drop_first-Unique ((k, e) ∷ t) u = delete-Unique k ((k, e) ∷ t) u

size-drop_first : (t : Table PhaseEvent) → Unique t → suc (size (drop_first t)) ≤ suc (size t)
unfolding drop_first
size-drop_first [] u = omega arith
size-drop_first ((k, e) ∷ t) u = omega (arith, ap size (delete_first k e t u))

size-drop_first_lt :
    (t : Table PhaseEvent) (n : ℕ) → Unique t → size t ≤ suc n → size (drop_first t) ≤ n
unfolding drop_first
size-drop_first_lt [] n u h = omega arith
size-drop_first_lt ((k, e) ∷ t) n u h = omega (arith, h, ap size (delete_first k e t u))

note_phase-IsBounded :
    (t : Table PhaseEvent) (e : PhaseEvent) → IsBounded t → IsBounded (note_phase t e)
unfolding note_phase
note_phase-IsBounded t e v =
    let u = set-Unique e.cycle_id e t v.0 in
    ground (
      arith,
      u,
      drop_first-Unique (set e.cycle_id e t) u,
      size-set e.cycle_id e t,
      size-drop_first_lt (set e.cycle_id e t) 512 u,
    )

-- The live phase events, of any number of cycles, never are of more than 512, and none twice.
pub note_phases-IsBounded :
    (es : List PhaseEvent) (t : Table PhaseEvent) → IsBounded t → IsBounded (note_phases t es)
unfolding note_phases
note_phases-IsBounded [] t v = v
note_phases-IsBounded (e ∷ es) t v =
    note_phases-IsBounded es (note_phase t e) (note_phase-IsBounded t e v)
