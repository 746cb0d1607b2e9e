-- ===== src/Codegen/Simdram.antt =====
-- The SIMDRAM code generator (simulator/src/pim_codegen/impl/simdram.cpp). Its tables, bank tag and
-- address scheme are those of the FIMDRAM code generator; the address scheme is not used. A value takes
-- as many rows as it has bits, and `n_values_per_dq` of the machine is the width of an access. The
-- assertion that no element is new after the first is left out.
pub mod Majority
use kvc_pim.Base.{
  ℕ, contains, get_or, if◌then◌else◌, length, ltb, replicate, set, set_insert, ◌==◌, zero, suc, ◌+◌,
  ◌*◌, ◌/◌, ◌%◌, Bool, true, Option, none, some, List, [], ◌∷◌, ◌++◌,
}
use Prim.Native.String.{String}
use text.Mathlib.Text.{◌==◌ as str_eq}
use kvc_pim.Dram.{Dram}
use kvc_pim.KvTrace.{Op, Trace, bank_read, read, write}
use kvc_pim.Codegen.{bank_base_addr, rows_per_bank, row_of, source_bank_of, add_bank_tag}
use kvc_pim.Codegen.Generate.{
  Kernel, Machine, timesteps, Access, hash_at, Elements, elems_of, cols_of,
}
use kvc_pim.Codegen.Generate.Fresh.{Fresh, fresh_steps, input_load_banks}
use kvc_pim.Layout.Infer.{PimTensors}
use kvc_pim.Layout.Numbering.{Table}
use kvc_pim.Codegen.Generate.BankDuplicate.{values_per_row}

-- The accesses of each row, in the order of their first one.
unfoldable pub group_access : Access → List (ℕ × List Access) → List (ℕ × List Access)
group_access a [] = (a.row, a ∷ []) ∷ []
group_access a ((row, accesses) ∷ rows) =
    let rest = group_access a rows in
    if a.row == row then (row, accesses ++ (a ∷ [])) ∷ rows else (row, accesses) ∷ rest

unfoldable pub group_rows : List Access → List (ℕ × List Access) → List (ℕ × List Access)
unfolding group_access
group_rows [] rows = rows
group_rows (a ∷ accesses) rows = group_rows accesses (group_access a rows)

-- `bank_base_addr[bank]` with its row and its column.
unfoldable pub place_addr : Dram → ℕ → ℕ → ℕ → List ℕ
unfolding bank_base_addr
place_addr dram bank row column =
    set (set (get_or (bank_base_addr dram) bank []) dram.row_level row) dram.column_level column

-- What a tensor is to the kernel; no tensor is both its weights and its output.
pub data Role : Type 0 where
  weight output input : Role

unfoldable pub role_of : Kernel → ℕ → Role
role_of k i =
    if i == k.weight_tensor then weight else if i == k.output_tensor then output else input

-- The writes of one input value to a number of banks, from `bank` on.
unfoldable pub write_inputs : Dram → ℕ → ℕ → List Trace
unfolding bank_base_addr
write_inputs dram zero bank = []
write_inputs dram (suc rounds) bank =
    (write, get_or (bank_base_addr dram) bank []) ∷ write_inputs dram rounds (bank + 1)

module _ (dram : Dram) (pe_bits : ℕ) (role : Role) (first_time_in_col : Bool) where
  -- The operations that load one column, in the row `bit_row` rows after the tagged row.
  unfoldable pub load_column : ℕ → ℕ → Access → List Trace
  unfolding place_addr write_inputs
  load_column tagged bit_row a = elim role [
    | weight ↦ []
    | output ↦
        (read, place_addr dram (source_bank_of dram tagged) (row_of dram tagged + bit_row) a.col)
        ∷ []
    | input ↦
        if first_time_in_col then write_inputs dram a.number (source_bank_of dram tagged) else []
  ]

  unfoldable pub load_columns : ℕ → ℕ → List Access → List Trace
  unfolding load_column
  load_columns tagged bit_row [] = []
  load_columns tagged bit_row (a ∷ accesses) =
      load_column tagged bit_row a ++ load_columns tagged bit_row accesses

  -- The loop over the rows of the bits, from `bit_row` on.
  unfoldable pub load_bits : ℕ → ℕ → ℕ → List Access → List Trace
  unfolding load_columns
  load_bits tagged zero bit_row accesses = []
  load_bits tagged (suc rounds) bit_row accesses =
      load_columns tagged bit_row accesses ++ load_bits tagged rounds (bit_row + 1) accesses

  -- The majority operations, each in the row after the last one's, around the rows of the bits.
  unfoldable pub majority_ops : ℕ → ℕ → ℕ → List Trace
  unfolding place_addr
  majority_ops tagged zero cur_row = []
  majority_ops tagged (suc rounds) cur_row =
      (bank_read, place_addr dram (source_bank_of dram tagged) (row_of dram tagged + cur_row) 0)
      ∷ majority_ops tagged rounds ((cur_row + 1) % pe_bits)

  unfoldable pub compute_ops : ℕ → List Trace
  unfolding majority_ops
  compute_ops tagged = elim role [
    | output ↦ majority_ops tagged (7 * pe_bits * pe_bits + 1) 0
    | _ ↦ []
  ]

  -- The loop over the rows.
  unfoldable pub bank_rows : List (ℕ × List Access) → List Trace
  unfolding load_bits compute_ops
  bank_rows [] = []
  bank_rows ((tagged, accesses) ∷ rows) =
      load_bits tagged pe_bits 0 accesses ++ (compute_ops tagged ++ bank_rows rows)

module _ (m : Machine) (k : Kernel) (pe_bits : ℕ) where
  unfoldable pub simdram_spot : ℕ → PimTensors → ℕ → ℕ → Fresh → (ℕ × ℕ) × Fresh
  unfolding hash_at add_bank_tag
  simdram_spot cur_row tensors i sid s =
      let hash = hash_at k tensors i sid in
      let per_row = values_per_row m k in
      let row = cur_row + s.alloc_col / per_row * pe_bits in
      let was_seen = contains hash (get_or s.seen sid []) in
      (
        (
          add_bank_tag m.dram (row + k.first_row) (sid / cols_of k + k.first_bank),
          s.alloc_col % per_row / m.n_values_per_dq,
        ),
        record {
          alloc_col = s.alloc_col + 1;
          first_time_in_col = if was_seen then s.first_time_in_col else true;
          next_row = if ltb s.next_row (row + 1) then row else s.next_row;
          seen = set s.seen sid (set_insert hash (get_or s.seen sid []));
        },
      )

  unfoldable pub simdram_elements : ℕ → PimTensors → ℕ → Elements Fresh
  unfolding bank_rows group_rows role_of simdram_spot input_load_banks
  simdram_elements cur_row tensors i = record {
    single_bank = k.plan.single_bank_opt;
    cols_per_bank = cols_of k;
    first_bank = k.first_bank;
    n_spatial_elems = elems_of k;
    emit = λ bank s accesses.
        bank_rows m.dram pe_bits (role_of k i) s.first_time_in_col
          (group_rows (m.walk accesses) []);
    next = λ n. input_load_banks m k;
    allocate = simdram_spot cur_row tensors i;
  }

  unfoldable pub codegen_simdram : List (List Table) → List Trace → List (List Table) × List Trace
  unfolding fresh_steps simdram_elements timesteps
  codegen_simdram tables instructions =
      fresh_steps k simdram_elements (timesteps m.sim_timesteps k.hierarchy.sequential_steps) tables
        0 (replicate (length k.plan.projections) (replicate (elems_of k) [])) instructions

  -- `codegen`; `none` is the exception for any other method.
  unfoldable pub simdram_codegen :
      String → List (List Table) → List Trace → Option (List (List Table) × List Trace)
  unfolding codegen_simdram
  simdram_codegen alloc_method tables instructions =
      if str_eq alloc_method "simdram" then some (codegen_simdram tables instructions) else none
