-- ===== src/Codegen/Generate/NoDuplicate.antt =====
-- The allocation method `no_duplicate` of simulator/src/pim_codegen/impl/fimdram.cpp: every tensor has
-- one address in the memory, which the address scheme splits.
use kvc_pim.Base.{ℕ, get_or, length, zero, suc, ◌+◌, ◌-◌, ◌/◌, false, List, [], ◌∷◌}
use kvc_pim.Layout.Numbering.{infer_layout, Table}
use kvc_pim.Codegen.{add_bank_tag}
use kvc_pim.Codegen.Generate.{
  Kernel, Machine, hash_at, emit_bank, collect_tensor, timesteps, Elements, cols_of, elems_of,
}
use kvc_pim.Codegen.Scheme.{get_addr_scheme8, tensor_base_addr}
use kvc_pim.Layout.Infer.{PimTensors}
use kvc_pim.KvTrace.{Trace}

module _ (m : Machine) (k : Kernel) where
  -- The row with its bank's tag and the column of a tensor's element.
  unfoldable pub scheme_spot : PimTensors → ℕ → ℕ → ℕ × ℕ
  unfolding hash_at tensor_base_addr get_addr_scheme8 add_bank_tag
  scheme_spot tensors i sid =
      let addr =
        get_or (tensor_base_addr m.n_values_per_dq k.bounds 0) i 0
        + hash_at k tensors i sid / m.n_values_per_dq in
      let p = get_addr_scheme8 (m.column_bits - 2) addr k.hierarchy.spatial_banks k.first_bank in
      (add_bank_tag m.dram (p.row + k.first_row) p.bank, p.col)

  unfoldable pub no_duplicate_elements : PimTensors → ℕ → Elements Unit
  unfolding emit_bank scheme_spot
  no_duplicate_elements tensors i = record {
    single_bank = false;
    cols_per_bank = cols_of k;
    first_bank = k.first_bank;
    n_spatial_elems = elems_of k;
    emit = emit_bank m k i;
    next = λ n. n + 1;
    allocate = λ sid s. (scheme_spot tensors i sid, s);
  }

  -- The loop over the tensors from `i` on.
  unfoldable pub no_duplicate_tensors : PimTensors → ℕ → ℕ → List Trace → List Trace
  unfolding collect_tensor no_duplicate_elements
  no_duplicate_tensors tensors zero i instructions = instructions
  no_duplicate_tensors tensors (suc rounds) i instructions =
      no_duplicate_tensors tensors rounds (i + 1)
        (collect_tensor (no_duplicate_elements tensors i) instructions tt).instructions

  -- The loop over the time steps, each of which also extends the tables of the layout.
  unfoldable pub no_duplicate_steps :
      List ℕ → List (List Table) → List Trace → List (List Table) × List Trace
  unfolding infer_layout no_duplicate_tensors
  no_duplicate_steps [] tables instructions = (tables, instructions)
  no_duplicate_steps (t ∷ ts) tables instructions =
      let inferred = infer_layout k.plan k.hierarchy k.bounds t tables in
      no_duplicate_steps ts inferred.1
        (no_duplicate_tensors inferred.0 (length k.plan.projections) 0 instructions)

  unfoldable pub codegen_no_duplicate :
      List (List Table) → List Trace → List (List Table) × List Trace
  unfolding no_duplicate_steps timesteps
  codegen_no_duplicate tables instructions =
      no_duplicate_steps (timesteps m.sim_timesteps k.hierarchy.sequential_steps) tables
        instructions
