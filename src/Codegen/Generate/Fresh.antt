-- ===== src/Codegen/Generate/Fresh.antt =====
-- The allocation method `new` of simulator/src/pim_codegen/impl/fimdram.cpp: every time step has a row,
-- and the inputs are written only where they have not been in the element's column before. The
-- assertion that no element is new after the first is left out.
use kvc_pim.Base.{
  ℕ, contains, get_or, if◌then◌else◌, leb, length, ltb, replicate, set, set_insert, zero, suc, ◌+◌,
  ◌*◌, ◌/◌, ◌%◌, Bool, true, false, none, some, List, [], ◌∷◌,
}
use kvc_pim.Layout.Numbering.{infer_layout, Table}
use kvc_pim.Codegen.{add_bank_tag}
use kvc_pim.KvTrace.{Trace}
use kvc_pim.Codegen.Generate.{
  Kernel, Machine, hash_at, collect_tensor, timesteps, cols_of, Elements, elems_of,
}
use kvc_pim.Layout.Infer.{PimTensors}
use kvc_pim.Codegen.Generate.RowDuplicate.{codegen_bank_new}

-- The variables that the elements of one tensor change; `seen` holds the keys of `tensor_row_idx[i]`,
-- for each element.
pub record Fresh : Type 0 where
  pub alloc_col : ℕ
  pub first_time_in_col : Bool
  pub next_row : ℕ
  pub seen : List (List ℕ)

-- The loops of a method whose elements change these variables, with its elements `build`.
module _ (k : Kernel) (build : ℕ → PimTensors → ℕ → Elements Fresh) where
  -- The loop over the tensors, with `next_row` and `tensor_row_idx`.
  unfoldable pub fresh_tensors :
      ℕ
      → PimTensors
      → ℕ
      → ℕ
      → ℕ
      → List (List (List ℕ))
      → List Trace
      → ℕ × List (List (List ℕ)) × List Trace
  unfolding collect_tensor
  fresh_tensors cur_row tensors zero i next_row seen instructions = (next_row, seen, instructions)
  fresh_tensors cur_row tensors (suc rounds) i next_row seen instructions =
      let c = collect_tensor (build cur_row tensors i) instructions (record {
        alloc_col = 0;
        first_time_in_col = false;
        next_row = next_row;
        seen = get_or seen i [];
      }) in
      fresh_tensors cur_row tensors rounds (i + 1) c.place.next_row (set seen i c.place.seen)
        c.instructions

  unfoldable pub fresh_steps :
      List ℕ
      → List (List Table)
      → ℕ
      → List (List (List ℕ))
      → List Trace
      → List (List Table) × List Trace
  unfolding infer_layout fresh_tensors
  fresh_steps [] tables next_row seen instructions = (tables, instructions)
  fresh_steps (t ∷ ts) tables next_row seen instructions =
      let inferred = infer_layout k.plan k.hierarchy k.bounds t tables in
      let done =
        fresh_tensors next_row inferred.0 (length k.plan.projections) 0 next_row seen
          instructions in
      fresh_steps ts inferred.1 done.0 done.1 done.2

module _ (m : Machine) (k : Kernel) where
  -- The number of banks that an input is loaded to.
  unfoldable pub input_load_banks : ℕ
  input_load_banks =
      let bankgroups : ℕ = elim m.dram.bankgroup_level [
        | none ↦ 0
        | some level ↦ get_or m.dram.count level 0
      ] in
      let banks_per_channel = get_or m.dram.count m.dram.bank_level 0 * bankgroups in
      if ltb banks_per_channel k.hierarchy.spatial_banks
      then banks_per_channel
      else k.hierarchy.spatial_banks

  -- The row of a time step, and `next_row` after it.
  unfoldable pub fresh_row : ℕ → ℕ → ℕ × ℕ
  fresh_row cur_row next_row =
      let row = cur_row + k.first_row in
      let n_rows = get_or m.dram.count m.dram.row_level 0 in
      if leb n_rows row
      then (row % n_rows, row % n_rows + 1)
      else (row, if ltb next_row (row + 1) then row + 1 else next_row)

  unfoldable pub fresh_spot : ℕ → PimTensors → ℕ → ℕ → Fresh → (ℕ × ℕ) × Fresh
  unfolding hash_at fresh_row add_bank_tag
  fresh_spot cur_row tensors i sid s =
      let hash = hash_at k tensors i sid in
      let row = fresh_row cur_row s.next_row in
      let was_seen = contains hash (get_or s.seen sid []) in
      (
        (
          add_bank_tag m.dram row.0 (sid / cols_of k + k.first_bank),
          s.alloc_col % cols_of k / m.n_values_per_dq,
        ),
        record {
          alloc_col = s.alloc_col + 1;
          first_time_in_col = if was_seen then s.first_time_in_col else true;
          next_row = row.1;
          seen = set s.seen sid (set_insert hash (get_or s.seen sid []));
        },
      )

  unfoldable pub fresh_elements : ℕ → PimTensors → ℕ → Elements Fresh
  unfolding codegen_bank_new fresh_spot input_load_banks
  fresh_elements cur_row tensors i = record {
    single_bank = k.plan.single_bank_opt;
    cols_per_bank = cols_of k;
    first_bank = k.first_bank;
    n_spatial_elems = elems_of k;
    emit = λ bank s accesses. codegen_bank_new m k i bank s.first_time_in_col (m.walk accesses);
    next = λ n. input_load_banks;
    allocate = fresh_spot cur_row tensors i;
  }

  unfoldable pub codegen_new : List (List Table) → List Trace → List (List Table) × List Trace
  unfolding fresh_steps fresh_elements timesteps
  codegen_new tables instructions =
      fresh_steps k fresh_elements (timesteps m.sim_timesteps k.hierarchy.sequential_steps) tables 0
        (replicate (length k.plan.projections) (replicate (elems_of k) [])) instructions
