-- ===== src/Codegen/Generate/BankDuplicate.antt =====
-- The allocation method `bank_duplicate` of simulator/src/pim_codegen/impl/fimdram.cpp: every bank
-- holds the values that it uses, at the numbers that the layout's tables give them.
use kvc_pim.Base.{
  ℕ, at_or, get_or, if◌then◌else◌, length, lookup, ltb, set, zero, suc, ◌+◌, ◌-◌, ◌*◌, ◌/◌, ◌%◌,
  false, List, [], ◌∷◌, ◌++◌, nat_key,
}
use kvc_pim.Layout.Numbering.{infer_layout, Table, empty_table}
use kvc_pim.Codegen.{add_bank_tag}
use kvc_pim.Codegen.Generate.{
  Kernel, Machine, hash_at, emit_bank, collect_tensor, timesteps, cols_of, Elements, elems_of,
}
use kvc_pim.Layout.Infer.{PimTensors}
use kvc_pim.KvTrace.{Trace}

-- `tensor_row_idx` and `cur_row`: the rows of each tensor, and the number of rows in use.
pub record Rows : Type 0 where
  pub tensor_row_idx : List (List ℕ)
  pub cur_row : ℕ

-- The first row of each tensor, from `row` on.
unfoldable pub one_row_each : ℕ → ℕ → List (List ℕ)
one_row_each zero row = []
one_row_each (suc n_tensors) row = (row ∷ []) ∷ one_row_each n_tensors (row + 1)

unfoldable pub first_rows : ℕ → Rows
unfolding one_row_each
first_rows n_tensors = record { tensor_row_idx = one_row_each n_tensors 0; cur_row = n_tensors }

module _ (m : Machine) (k : Kernel) where
  -- `n_values_per_row`.
  abbrev pub values_per_row : ℕ
  values_per_row = get_or m.dram.count m.dram.column_level 0 * m.n_values_per_dq

  -- A tensor gets one more row where the row of the offset is not among its rows.
  unfoldable pub row_for : ℕ → ℕ → Rows → ℕ × Rows
  row_for i tensor_offset rows =
      let row_offset = tensor_offset / values_per_row in
      let row_idx = get_or rows.tensor_row_idx i [] in
      let grown = row_idx ++ (rows.cur_row ∷ []) in
      if ltb (length row_idx - 1) row_offset
      then (
        get_or grown row_offset 0,
        record { tensor_row_idx = set rows.tensor_row_idx i grown; cur_row = rows.cur_row + 1 },
      )
      else (get_or row_idx row_offset 0, rows)

  unfoldable pub bank_spot : List (List Table) → PimTensors → ℕ → ℕ → Rows → (ℕ × ℕ) × Rows
  unfolding hash_at row_for add_bank_tag
  bank_spot tables tensors i sid rows =
      let local_bank_id = sid / cols_of k in
      let table = get_or (get_or tables local_bank_id []) i empty_table in
      let tensor_offset = at_or (hash_at k tensors i sid) 0 (λ hash. lookup hash table.entries) in
      let found = row_for i tensor_offset rows in
      (
        (
          add_bank_tag m.dram found.0 (local_bank_id + k.first_bank),
          tensor_offset % values_per_row / m.n_values_per_dq,
        ),
        found.1,
      )

  unfoldable pub bank_duplicate_elements : List (List Table) → PimTensors → ℕ → Elements Rows
  unfolding emit_bank bank_spot
  bank_duplicate_elements tables tensors i = record {
    single_bank = false;
    cols_per_bank = cols_of k;
    first_bank = k.first_bank;
    n_spatial_elems = elems_of k;
    emit = emit_bank m k i;
    next = λ n. n + 1;
    allocate = bank_spot tables tensors i;
  }

  unfoldable pub bank_duplicate_tensors :
      List (List Table) → PimTensors → ℕ → ℕ → Rows → List Trace → Rows × List Trace
  unfolding collect_tensor bank_duplicate_elements
  bank_duplicate_tensors tables tensors zero i rows instructions = (rows, instructions)
  bank_duplicate_tensors tables tensors (suc rounds) i rows instructions =
      let c = collect_tensor (bank_duplicate_elements tables tensors i) instructions rows in
      bank_duplicate_tensors tables tensors rounds (i + 1) c.place c.instructions

  unfoldable pub bank_duplicate_steps :
      List ℕ → List (List Table) → Rows → List Trace → List (List Table) × List Trace
  unfolding infer_layout bank_duplicate_tensors
  bank_duplicate_steps [] tables rows instructions = (tables, instructions)
  bank_duplicate_steps (t ∷ ts) tables rows instructions =
      let inferred = infer_layout k.plan k.hierarchy k.bounds t tables in
      let done =
        bank_duplicate_tensors inferred.1 inferred.0 (length k.plan.projections) 0 rows
          instructions in
      bank_duplicate_steps ts inferred.1 done.0 done.1

  unfoldable pub codegen_bank_duplicate :
      List (List Table) → List Trace → List (List Table) × List Trace
  unfolding bank_duplicate_steps timesteps first_rows
  codegen_bank_duplicate tables instructions =
      bank_duplicate_steps (timesteps m.sim_timesteps k.hierarchy.sequential_steps) tables
        (first_rows (length k.plan.projections)) instructions
