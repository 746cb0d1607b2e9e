-- ===== src/Tests/Trackers.antt =====
-- The conflict tracker on two banks (simulator/src/memory_system/bank_conflict_tracker.h), and the
-- data spaces of small kernels (simulator/src/pim_codegen).
use kvc_pim.Base.{if◌then◌else◌, ◌+◌, ◌≡◌, ◌↔◌, true, ◌&&◌, List, [], ◌∷◌, arith, pos}
use kvc_pim.Tracker.{
  Call, weight_op, kv_op, weight_done, create, run, has_potential_conflict,
  register_weight_operation, register_kv_cache_operation,
}
use kvc_pim.Tracker.History.{weight_used, kv_used, has_potential_conflict-run, register-run}
use kvc_pim.DataSpace.{DataSpaceIdx, get_hash, same_idx}
use kvc_pim.DataSpace.Hash.{NoOverflow, get_hash-injective}

abbrev calls : List Call
calls = weight_op (pos 1) 5 0 ∷ weight_done (pos 1) 5 ∷ kv_op (pos 1) 9 3 ∷ []

potential_example :
    has_potential_conflict (pos 1) (run (create (pos 2)) calls)
    ≡ (weight_used 1 calls && kv_used 1 calls)
potential_example = has_potential_conflict-run 2 1 calls (omega arith)

register_example :
    ((register_kv_cache_operation (pos 1) 4 7 (run (create (pos 2)) calls)).total_conflicts ≡ (
      if weight_used 1 calls
      then (run (create (pos 2)) calls).total_conflicts + 1
      else (run (create (pos 2)) calls).total_conflicts))
    × ((register_weight_operation (pos 1) 4 7 (run (create (pos 2)) calls)).total_conflicts ≡ (
        if kv_used 1 calls
        then (run (create (pos 2)) calls).total_conflicts + 1
        else (run (create (pos 2)) calls).total_conflicts))
register_example = register-run 2 1 4 7 calls (omega arith)

abbrev idx : DataSpaceIdx
idx = record { batch = 1; channel = 2; height = 3; width = 4 }

abbrev other : DataSpaceIdx
other = record { batch = 1; channel = 2; height = 4; width = 3 }

abbrev bounds : DataSpaceIdx
bounds = record { batch = 2; channel = 3; height = 5; width = 6 }

distinct_example :
    (NoOverflow idx bounds × NoOverflow other bounds)
    × ((get_hash idx bounds ≡ get_hash other bounds) ↔ (idx ≡ other))
    × ((same_idx idx other ≡ true) ↔ (idx ≡ other))
distinct_example = get_hash-injective idx other bounds (omega arith) (omega arith) (omega arith)
