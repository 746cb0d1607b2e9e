-- ===== src/Frontend/Weights/Detected.antt =====
-- The banks of the weight mapping that `expand_trace` builds
-- (simulator/src/frontend/impl/memory_trace/pim_trace_kv_aware.cpp).
use kvc_pim.Base.{
  ℕ, Bool-cases, Option-cases, get_or, is_empty, leb, length, ltb, same_ℤ, set_insert, ◌==◌, ◌+◌,
  ◌≡◌, refl, sym, ap, subst, ◌∙◌, inl, inr, Bool, true, false, ◌&&◌, ◌||◌, none, some, List, [],
  ◌∷◌, arith, pos, negsuc, true≢false,
}
use kvc_pim.KvTrace.{Op, Trace}
use kvc_pim.Policy.Weights.{WeightMap, has_weights}
use kvc_pim.Frontend.Weights.{
  Detection, no_detection, is_write, signature_of, insert_weight, bank_of, detect_operation,
  detect_operations, mark_writers, build_weight_map,
}

-- An operation that writes to `bank`, counted by entry 3 of its address vector.
pub is_write_to : ℕ → ℕ → Trace → Bool
unfolding is_write
is_write_to num_banks bank (op, addr_vec) =
    is_write op
    && (leb 4 (length addr_vec) && (ltb bank num_banks && (get_or addr_vec 3 0 == bank)))

pub any_write_to : ℕ → ℕ → List Trace → Bool
any_write_to num_banks bank [] = false
any_write_to num_banks bank (t ∷ ops) =
    is_write_to num_banks bank t || any_write_to num_banks bank ops

set_insert_some : (a : ℕ) (xs : List ℕ) → is_empty (set_insert a xs) ≡ false
set_insert_some a xs = ground arith

-- After an insertion, the bank has weights, and the others have those they had.
pub has_weights-insert_weight :
    (bank signature b : ℕ) (m : WeightMap)
    → has_weights (pos b) (insert_weight bank signature m) ≡ ((b == bank) || has_weights (pos b) m)
unfolding has_weights insert_weight
has_weights-insert_weight bank signature b [] = ground arith
has_weights-insert_weight bank signature b ((negsuc k, addrs) ∷ m) =
    has_weights-insert_weight bank signature b m
has_weights-insert_weight bank signature b ((pos k, addrs) ∷ m) =
    let ih = has_weights-insert_weight bank signature b m in
    let ne = set_insert_some signature addrs in ground arith

-- The three ways of an operation: outside the banks, a write, another one.
detect_none :
    (num_banks : ℕ) (t : Trace) (s : Detection)
    → bank_of num_banks t ≡ none
    → detect_operation num_banks t s ≡ s
unfolding detect_operation
detect_none num_banks (op, addr_vec) s e = rw (e, detect_operation) refl

detect_write :
    (num_banks bank : ℕ) (op : Op) (addr_vec : List ℕ) (s : Detection)
    → bank_of num_banks (op, addr_vec) ≡ some bank
    → is_write op ≡ true
    → detect_operation num_banks (op, addr_vec) s ≡ record {
      live_weight_map = insert_weight bank (signature_of bank s.total_weight_ops) s.live_weight_map;
      bank_operations = (bank, op) ∷ s.bank_operations;
      total_weight_ops = s.total_weight_ops + 1;
    }
unfolding detect_operation
detect_write num_banks bank op addr_vec s e w = rw (e, detect_operation, w) refl

detect_other :
    (num_banks bank : ℕ) (op : Op) (addr_vec : List ℕ) (s : Detection)
    → bank_of num_banks (op, addr_vec) ≡ some bank
    → is_write op ≡ false
    → detect_operation num_banks (op, addr_vec) s
      ≡ record s { bank_operations = (bank, op) ∷ s.bank_operations }
unfolding detect_operation
detect_other num_banks bank op addr_vec s e w = rw (e, detect_operation, w) refl

is_write_to-none :
    (num_banks b : ℕ) (t : Trace) → bank_of num_banks t ≡ none → is_write_to num_banks b t ≡ false
unfolding is_write_to bank_of
is_write_to-none num_banks b (op, addr_vec) h = ground arith

is_write_to-some :
    (num_banks b bank : ℕ) (op : Op) (addr_vec : List ℕ)
    → bank_of num_banks (op, addr_vec) ≡ some bank
    → is_write_to num_banks b (op, addr_vec) ≡ (is_write op && (b == bank))
unfolding is_write_to bank_of
is_write_to-some num_banks b bank op addr_vec h = ground arith

has_weights-detect_operation :
    (num_banks b : ℕ) (t : Trace) (s : Detection)
    → has_weights (pos b) (detect_operation num_banks t s).live_weight_map
      ≡ (has_weights (pos b) s.live_weight_map || is_write_to num_banks b t)
has_weights-detect_operation num_banks b (op, addr_vec) s =
    elim (Option-cases (bank_of num_banks (op, addr_vec))) [
      | inl e ↦
          ap (λ a. has_weights (pos b) a.live_weight_map) (detect_none num_banks (op, addr_vec) s e)
          ∙ rw (is_write_to-none num_banks b (op, addr_vec) e) (ground arith)
      | inr p ↦ elim (Bool-cases (is_write op)) [
        | inl w ↦
            ap (λ a. has_weights (pos b) a.live_weight_map)
              (detect_write num_banks p.0 op addr_vec s p.1 w)
            ∙ has_weights-insert_weight p.0 (signature_of p.0 s.total_weight_ops) b
                s.live_weight_map
            ∙ rw (is_write_to-some num_banks b p.0 op addr_vec p.1, w) (ground arith)
        | inr w ↦
            ap (λ a. has_weights (pos b) a.live_weight_map)
              (detect_other num_banks p.0 op addr_vec s p.1 w)
            ∙ rw (is_write_to-some num_banks b p.0 op addr_vec p.1, w) (ground arith)
      ]
    ]

has_weights-detect_operations :
    (num_banks b : ℕ) (ops : List Trace) (s : Detection)
    → has_weights (pos b) (detect_operations num_banks ops s).live_weight_map
      ≡ (has_weights (pos b) s.live_weight_map || any_write_to num_banks b ops)
unfolding detect_operations any_write_to
has_weights-detect_operations num_banks b [] s = ground arith
has_weights-detect_operations num_banks b (t ∷ ops) s =
    let e = has_weights-detect_operation num_banks b t s in
    let ih = has_weights-detect_operations num_banks b ops (detect_operation num_banks t s) in
    ground arith

-- A bank operation that is a write.
any_writer : List (ℕ × Op) → Bool
any_writer [] = false
any_writer ((bank, op) ∷ ops) = is_write op || any_writer ops

mark_writers_none :
    (ops : List (ℕ × Op)) (m : WeightMap) → any_writer ops ≡ false → mark_writers ops m ≡ m
unfolding mark_writers any_writer
mark_writers_none [] m h = refl
mark_writers_none ((bank, op) ∷ ops) m h = elim (Bool-cases (is_write op)) [
  | inl e ↦ ground (arith, e, h)
  | inr e ↦ rw e (mark_writers_none ops m (ground (arith, e, h)))
]

insert_weight_some :
    (bank signature : ℕ) (m : WeightMap) → is_empty (insert_weight bank signature m) ≡ false
unfolding insert_weight
insert_weight_some bank signature [] = refl
insert_weight_some bank signature ((key, addrs) ∷ m) = elim (Bool-cases (same_ℤ key (pos bank))) [
  | inl e ↦ rw e refl
  | inr e ↦ rw e refl
]

-- A map that is still empty has seen no write.
Unwritten : Detection → Type 0
Unwritten s = is_empty s.live_weight_map ≡ true → any_writer s.bank_operations ≡ false

detect_operation-Unwritten :
    (num_banks : ℕ) (t : Trace) (s : Detection)
    → Unwritten s
    → Unwritten (detect_operation num_banks t s)
unfolding Unwritten any_writer
detect_operation-Unwritten num_banks (op, addr_vec) s h =
    elim (Option-cases (bank_of num_banks (op, addr_vec))) [
      | inl e ↦ subst Unwritten (sym (detect_none num_banks (op, addr_vec) s e)) h
      | inr p ↦ elim (Bool-cases (is_write op)) [
        | inl w ↦ subst Unwritten (sym (detect_write num_banks p.0 op addr_vec s p.1 w)) (λ e.
            absurd (
              true≢false (
                sym e
                ∙ insert_weight_some p.0 (signature_of p.0 s.total_weight_ops) s.live_weight_map)))
        | inr w ↦
            subst Unwritten (sym (detect_other num_banks p.0 op addr_vec s p.1 w)) (λ e. rw w (h e))
      ]
    ]

detect_operations-Unwritten :
    (num_banks : ℕ) (ops : List Trace) (s : Detection)
    → Unwritten s
    → Unwritten (detect_operations num_banks ops s)
unfolding detect_operations
detect_operations-Unwritten num_banks [] s h = h
detect_operations-Unwritten num_banks (t ∷ ops) s h =
    detect_operations-Unwritten num_banks ops (detect_operation num_banks t s)
      (detect_operation-Unwritten num_banks t s h)

-- The heuristic for an empty map changes nothing, whatever the operations are.
pub build_weight_map_lem :
    (num_banks : ℕ) (ops : List Trace)
    → build_weight_map num_banks ops
      ≡ (detect_operations num_banks ops no_detection).live_weight_map
unfolding build_weight_map Unwritten any_writer
build_weight_map_lem num_banks ops =
    elim (Bool-cases (is_empty (detect_operations num_banks ops no_detection).live_weight_map)) [
      | inl e ↦ rw e (
          mark_writers_none (detect_operations num_banks ops no_detection).bank_operations
            (detect_operations num_banks ops no_detection).live_weight_map
            (detect_operations-Unwritten num_banks ops no_detection (λ e. refl) e))
      | inr e ↦ rw e refl
    ]

-- A bank has weights in the map exactly if some expanded operation writes to it: one with at least
-- four entries of which the one at index 3 is the bank, which is within the banks.
pub has_weights-build_weight_map :
    (num_banks b : ℕ) (ops : List Trace)
    → has_weights (pos b) (build_weight_map num_banks ops) ≡ any_write_to num_banks b ops
unfolding has_weights
has_weights-build_weight_map num_banks b ops =
    ap (has_weights (pos b)) (build_weight_map_lem num_banks ops)
    ∙ has_weights-detect_operations num_banks b ops no_detection
