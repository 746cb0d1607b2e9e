-- ===== src/Codegen/Generate/RowDuplicate.antt =====
-- The allocation methods `row_duplicate` and `new` of simulator/src/pim_codegen/impl/fimdram.cpp, which
-- give every time step rows of its own, and the operations of a bank that both emit.
use kvc_pim.Base.{
  ℕ, get_or, if◌then◌else◌, length, lookup, ltb, replicate, set, ◌==◌, zero, suc, ◌+◌, ◌/◌, ◌%◌,
  Bool, true, none, some, List, [], ◌∷◌, ◌++◌, map, nat_key,
}
use kvc_pim.Layout.Numbering.{infer_layout, Table}
use kvc_pim.Codegen.{BankCall, add_bank_tag, source_addr, bank_base_addr}
use kvc_pim.Dram.{Dram}
use kvc_pim.KvTrace.{Trace, Op}
use kvc_pim.Codegen.Generate.{
  Kernel, Machine, Access, hash_at, collect_tensor, timesteps, cols_of, Elements, elems_of,
}
use kvc_pim.Layout.Infer.{PimTensors}
use kvc_pim.Codegen.Generate.BankDuplicate.{values_per_row}

-- `input_load_banks`: the number of the first access that has one. The source asserts that the others
-- are the same.
unfoldable pub load_banks : ℕ → List Access → ℕ
load_banks found [] = found
load_banks found (a ∷ accesses) = load_banks (if found == 0 then a.number else found) accesses

-- One write to the register of each bank from `bank` on, for each access.
unfoldable pub write_banks : Dram → ℕ → ℕ → List Access → List Trace
unfolding bank_base_addr
write_banks dram zero bank accesses = []
write_banks dram (suc rounds) bank accesses =
    map (λ a. (Op.write, get_or (bank_base_addr dram) bank [])) accesses
    ++ write_banks dram rounds (bank + 1) accesses

module _ (m : Machine) (k : Kernel) where
  -- `codegen_bank_new`, of the accesses as they are walked.
  unfoldable pub codegen_bank_new : ℕ → ℕ → Bool → List Access → List Trace
  unfolding load_banks write_banks bank_base_addr
  codegen_bank_new i bank first_time accesses =
      let call : BankCall = record {
        global_bank_id = bank;
        output_tensor = i == k.output_tensor;
        bank_buffer = m.bank_buffer;
        n_values_per_dq = m.n_values_per_dq;
      } in
      if i == k.weight_tensor
      then map (λ a. (Op.bank_read, source_addr m.dram call a.row a.col)) accesses
      else if i == k.output_tensor
      then map (λ a. (Op.read, get_or (bank_base_addr m.dram) bank [])) accesses
      else if first_time
      then write_banks m.dram (load_banks 0 accesses) bank accesses
      else []

  -- The variables of `row_duplicate` that the elements change.
  pub record Columns : Type 0 where
    pub bank_tensor_col : List ℕ
    pub tensor_col_pos : List (ℕ × ℕ)
    pub next_row : ℕ

  -- The column position of a hash, a new one at the bank's next column.
  unfoldable pub col_pos : ℕ → ℕ → Columns → ℕ × Columns
  col_pos local_bank_id hash s = elim (lookup hash s.tensor_col_pos) [
    | some column ↦ (column, s)
    | none ↦
        let column = get_or s.bank_tensor_col local_bank_id 0 in
        (
          column,
          record s {
            tensor_col_pos = (hash, column) ∷ s.tensor_col_pos;
            bank_tensor_col = set s.bank_tensor_col local_bank_id (column + 1);
          },
        )
  ]

  unfoldable pub row_spot : ℕ → PimTensors → ℕ → ℕ → Columns → (ℕ × ℕ) × Columns
  unfolding hash_at col_pos add_bank_tag
  row_spot cur_row tensors i sid s =
      let local_bank_id = sid / cols_of k in
      let found = col_pos local_bank_id (hash_at k tensors i sid) s in
      let per_row = values_per_row m k in
      let row = cur_row + found.0 / per_row in
      (
        (
          add_bank_tag m.dram (row + k.first_row) (local_bank_id + k.first_bank),
          found.0 % per_row / m.n_values_per_dq,
        ),
        record found.1 {
          next_row = if ltb found.1.next_row (row + 1) then row else found.1.next_row;
        },
      )

  unfoldable pub row_duplicate_elements : ℕ → PimTensors → ℕ → Elements Columns
  unfolding codegen_bank_new row_spot
  row_duplicate_elements cur_row tensors i = record {
    single_bank = k.plan.single_bank_opt;
    cols_per_bank = cols_of k;
    first_bank = k.first_bank;
    n_spatial_elems = elems_of k;
    emit = λ bank s accesses. codegen_bank_new i bank true (m.walk accesses);
    next = λ n. n + 1;
    allocate = row_spot cur_row tensors i;
  }

  unfoldable pub row_duplicate_tensors :
      ℕ → PimTensors → ℕ → ℕ → Columns → List Trace → Columns × List Trace
  unfolding collect_tensor row_duplicate_elements
  row_duplicate_tensors cur_row tensors zero i s instructions = (s, instructions)
  row_duplicate_tensors cur_row tensors (suc rounds) i s instructions =
      let c =
        collect_tensor (row_duplicate_elements cur_row tensors i) instructions
          (record s { tensor_col_pos = [] }) in
      row_duplicate_tensors cur_row tensors rounds (i + 1) c.place c.instructions

  unfoldable pub row_duplicate_steps :
      List ℕ → List (List Table) → ℕ → List Trace → List (List Table) × List Trace
  unfolding infer_layout row_duplicate_tensors
  row_duplicate_steps [] tables next_row instructions = (tables, instructions)
  row_duplicate_steps (t ∷ ts) tables next_row instructions =
      let inferred = infer_layout k.plan k.hierarchy k.bounds t tables in
      let done =
        row_duplicate_tensors next_row inferred.0 (length k.plan.projections) 0
          (record {
            bank_tensor_col = replicate k.hierarchy.spatial_banks 0;
            tensor_col_pos = [];
            next_row = next_row;
          })
          instructions in
      row_duplicate_steps ts inferred.1 done.0.next_row done.1

  unfoldable pub codegen_row_duplicate :
      List (List Table) → List Trace → List (List Table) × List Trace
  unfolding row_duplicate_steps timesteps
  codegen_row_duplicate tables instructions =
      row_duplicate_steps (timesteps m.sim_timesteps k.hierarchy.sequential_steps) tables 0
        instructions
