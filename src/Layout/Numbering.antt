-- ===== src/Layout/Numbering.antt =====
-- The detailed data layout of `infer_layout` in simulator/src/pim_codegen/layout.h: for each bank and
-- each tensor a table that numbers the hashes of the data spaces in the order of their first use.
pub mod Tables
use kvc_pim.Base.{
  ℕ, get_or, if◌then◌else◌, length, lookup, ltb, replicate, set, zero, suc, ◌+◌, ◌/◌, Bool, ◌&&◌,
  none, some, List, [], ◌∷◌, nat_key,
}
use kvc_pim.DataSpace.{DataSpaceIdx, get_hash}
use kvc_pim.Layout.Infer.{Plan, PimTensors, infer_pim_tensors}
use kvc_pim.Layout.{spatial_elems, cols_per_bank, SpatialHierarchy}

-- An entry of `m_bank_tensor_idx[bank][i]` with that of `m_bank_tensor_count[bank][i]`.
pub record Table : Type 0 where
  pub entries : List (ℕ × ℕ)
  pub count : ℕ

unfoldable pub number_hash : ℕ → Table → Table
number_hash hash table = elim (lookup hash table.entries) [
  | none ↦ record { entries = (hash, table.count) ∷ table.entries; count = table.count + 1 }
  | some idx ↦ table
]

-- An index that stands for one out of bounds.
abbrev pub no_idx : DataSpaceIdx
no_idx = record { batch = 0; channel = 0; height = 0; width = 0 }

-- The loop over the tensors at one element and one step, over the tables of its bank.
unfoldable pub number_tensors : List DataSpaceIdx → PimTensors → ℕ → ℕ → List Table → List Table
unfolding number_hash get_hash
number_tensors [] tensors sid tid tables = tables
number_tensors (bound ∷ bounds) tensors sid tid [] = []
number_tensors (bound ∷ bounds) [] sid tid (table ∷ tables) =
    number_hash (get_hash no_idx bound) table ∷ number_tensors bounds [] sid tid tables
number_tensors (bound ∷ bounds) (t ∷ tensors) sid tid (table ∷ tables) =
    number_hash (get_hash (get_or (get_or t sid []) tid no_idx) bound) table
    ∷ number_tensors bounds tensors sid tid tables

module _ (bounds : List DataSpaceIdx) (cols_per_bank : ℕ) (single_bank_opt : Bool)
    (tensors : PimTensors) where
  -- The loop over the spatial elements from `sid` on, which the single-bank option leaves after the
  -- first bank.
  unfoldable pub number_elements : ℕ → ℕ → ℕ → List (List Table) → List (List Table)
  unfolding number_tensors
  number_elements zero sid tid tables = tables
  number_elements (suc rounds) sid tid tables =
      let bank = sid / cols_per_bank in
      let rest =
        number_elements rounds (sid + 1) tid
          (set tables bank (number_tensors bounds tensors sid tid (get_or tables bank []))) in
      if single_bank_opt && ltb 0 bank then tables else rest

  -- The loop over the steps.
  unfoldable pub number_steps : ℕ → ℕ → ℕ → List (List Table) → List (List Table)
  unfolding number_elements
  number_steps n zero tid tables = tables
  number_steps n (suc rounds) tid tables =
      number_steps n rounds (tid + 1) (number_elements n 0 tid tables)

abbrev pub empty_table : Table
empty_table = record { entries = []; count = 0 }

-- The tables after the constructor.
unfoldable pub first_tables : ℕ → ℕ → List (List Table)
first_tables spatial_banks n_tensors = replicate spatial_banks (replicate n_tensors empty_table)

-- `infer_layout`: the data spaces of the time step, and the tables with their hashes.
unfoldable pub infer_layout :
    Plan
    → SpatialHierarchy
    → List DataSpaceIdx
    → ℕ
    → List (List Table)
    → PimTensors × List (List Table)
unfolding infer_pim_tensors number_steps spatial_elems cols_per_bank
infer_layout plan h bounds timestep tables =
    let tensors = infer_pim_tensors plan h timestep in
    let temporal_steps = length (get_or (get_or tensors 0 []) 0 []) in
    (
      tensors,
      number_steps bounds (cols_per_bank plan.levels h) plan.single_bank_opt tensors
          (spatial_elems 1 plan.levels) temporal_steps 0 tables,
    )
