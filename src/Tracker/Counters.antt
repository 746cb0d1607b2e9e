-- ===== src/Tracker/Counters.antt =====
-- The counters and the history of `BankConflictTracker`
-- (simulator/src/memory_system/bank_conflict_tracker.h) tell the same story.
use kvc_pim.Base.{
  ℕ, if◌then◌else◌, ◌+◌, ◌≡◌, Bool, true, false, List, [], ◌∷◌, ◌++◌, arith, pos, negsuc, ℤ,
}
use kvc_pim.Tracker.{
  Tracker, ConflictEvent, ConflictType, weight_kv, kv_weight, create, Call, weight_op, kv_op,
  weight_done, kv_done, reset, step, run,
}

abbrev pub same_type : ConflictType → ConflictType → Bool
same_type weight_kv weight_kv = true
same_type kv_weight kv_weight = true
same_type weight_kv kv_weight = false
same_type kv_weight weight_kv = false

-- The events of one type in a history.
pub count_type : ConflictType → List ConflictEvent → ℕ
count_type c [] = 0
count_type c (e ∷ es) = (if same_type c e.conflict_type then 1 else 0) + count_type c es

count_type-append :
    (c : ConflictType) (xs ys : List ConflictEvent)
    → count_type c (xs ++ ys) ≡ count_type c xs + count_type c ys
unfolding count_type
count_type-append c [] ys = omega arith
count_type-append c (x ∷ xs) ys = omega (arith, count_type-append c xs ys)

pub record Counted (t : Tracker) : Type 0 where
  pub weight_kv_counted : t.weight_kv_conflicts ≡ count_type weight_kv t.conflict_history
  pub kv_weight_counted : t.kv_weight_conflicts ≡ count_type kv_weight t.conflict_history
  pub total : t.total_conflicts ≡ t.weight_kv_conflicts + t.kv_weight_conflicts

abbrev event : ℕ → ℕ → ConflictType → List ConflictEvent
event b cycle kind = record { bank_id = b; cycle = cycle; conflict_type = kind } ∷ []

step-Counted : (t : Tracker) (c : Call) → Counted t → Counted (step t c)
unfolding step count_type
step-Counted t (weight_op (negsuc b) addr cycle) v = v
step-Counted t (weight_op (pos b) addr cycle) v = ground (
  arith,
  count_type-append weight_kv t.conflict_history (event b cycle weight_kv),
  count_type-append kv_weight t.conflict_history (event b cycle weight_kv),
)
step-Counted t (kv_op (negsuc b) addr cycle) v = v
step-Counted t (kv_op (pos b) addr cycle) v = ground (
  arith,
  count_type-append weight_kv t.conflict_history (event b cycle kv_weight),
  count_type-append kv_weight t.conflict_history (event b cycle kv_weight),
)
step-Counted t (weight_done bank addr) v = ground arith
step-Counted t (kv_done bank addr) v = ground arith
step-Counted t reset v = omega arith

run-Counted : (t : Tracker) (cs : List Call) → Counted t → Counted (run t cs)
unfolding run
run-Counted t [] v = v
run-Counted t (c ∷ cs) v = run-Counted (step t c) cs (step-Counted t c v)

-- After any calls on a new tracker each of the two counters is the number of events of its type in the
-- history, and the total is their sum.
pub run-create-Counted : (num_banks : ℤ) (cs : List Call) → Counted (run (create num_banks) cs)
unfolding create count_type
run-create-Counted num_banks cs = run-Counted _ cs (omega arith)
