-- ===== src/Frontend/Weights.antt =====
-- The weight mapping that `expand_trace` reads off the expanded kernels
-- (simulator/src/frontend/impl/memory_trace/pim_trace_kv_aware.cpp). The counters that are only
-- logged are left out.
pub mod Detected
use Prim.Native.Nat.{bit_or}
use kvc_pim.Base.{
  ℕ, get_or, if◌then◌else◌, is_empty, leb, length, ltb, same_ℤ, set_insert, ◌==◌, zero, suc, ◌+◌,
  ◌*◌, ◌%◌, ◌^◌, ◌≡◌, Bool, true, false, ◌&&◌, ◌||◌, Option, none, some, List, [], ◌∷◌, arith, pos,
  Bool-cases, refl, ap, ◌∙◌, inl, inr, negsuc, Option-cases, sym, subst,
}
use kvc_pim.KvTrace.{Op, Trace}
use kvc_pim.Policy.Weights.{WeightMap, has_weights}

-- The operation is "write".
unfoldable pub is_write : Op → Bool
is_write Op.write = true
is_write _ = false

-- `live_weight_map[bank].insert(signature)`
unfoldable pub insert_weight : ℕ → ℕ → WeightMap → WeightMap
insert_weight bank signature [] = (pos bank, signature ∷ []) ∷ []
insert_weight bank signature ((key, addrs) ∷ m) =
    let rest = insert_weight bank signature m in
    if same_ℤ key (pos bank) then (key, set_insert signature addrs) ∷ m else (key, addrs) ∷ rest

-- `live_weight_map`, `bank_operations` as the pairs of a bank and an operation of its, and
-- `m_total_weight_ops`.
pub record Detection : Type 0 where
  pub live_weight_map : WeightMap
  pub bank_operations : List (ℕ × Op)
  pub total_weight_ops : ℕ

abbrev pub no_detection : Detection
no_detection = record { live_weight_map = []; bank_operations = []; total_weight_ops = 0 }

-- `(static_cast<uint64_t>(bank_id) << 32) | m_total_weight_ops`
abbrev pub signature_of : ℕ → ℕ → ℕ
signature_of bank total = bit_or ((bank * 2 ^ 32) % 2 ^ 64) total

-- The bank of an operation: entry 3 of its address vector, if that is within the banks. The operations
-- are those of the code generator, whose addresses have no negative entry, so the test for one is left
-- out.
unfoldable pub bank_of : ℕ → Trace → Option ℕ
bank_of num_banks (op, addr_vec) =
    if leb 4 (length addr_vec) && ltb (get_or addr_vec 3 0) num_banks
    then some (get_or addr_vec 3 0)
    else none

unfoldable pub detect_operation : ℕ → Trace → Detection → Detection
unfolding insert_weight is_write bank_of
detect_operation num_banks (op, addr_vec) s = elim (bank_of num_banks (op, addr_vec)) [
  | none ↦ s
  | some bank ↦
      let seen = record s { bank_operations = (bank, op) ∷ s.bank_operations } in
      if is_write op
      then record seen {
        live_weight_map =
            insert_weight bank (signature_of bank s.total_weight_ops) s.live_weight_map;
        total_weight_ops = s.total_weight_ops + 1;
      }
      else seen
]

unfoldable pub detect_operations : ℕ → List Trace → Detection → Detection
unfolding detect_operation
detect_operations num_banks [] s = s
detect_operations num_banks (t ∷ ops) s =
    detect_operations num_banks ops (detect_operation num_banks t s)

-- The synthetic signatures of a bank: `rounds` of them from `i` on.
unfoldable pub synthetic_weights : ℕ → ℕ → ℕ → WeightMap → WeightMap
unfolding insert_weight
synthetic_weights bank zero i m = m
synthetic_weights bank (suc rounds) i m =
    synthetic_weights bank rounds (i + 1) (insert_weight bank (signature_of bank i) m)

-- The heuristic for a map that is still empty: every bank with a write gets 100 weights.
unfoldable pub mark_writers : List (ℕ × Op) → WeightMap → WeightMap
unfolding is_write synthetic_weights
mark_writers [] m = m
mark_writers ((bank, op) ∷ ops) m =
    let marked = mark_writers ops (synthetic_weights bank 100 0 m) in
    let others = mark_writers ops m in if is_write op then marked else others

unfoldable pub build_weight_map : ℕ → List Trace → WeightMap
unfolding detect_operations mark_writers
build_weight_map num_banks ops =
    let s = detect_operations num_banks ops no_detection in
    if is_empty s.live_weight_map
    then mark_writers s.bank_operations s.live_weight_map
    else s.live_weight_map
