-- ===== src/Codegen.antt =====
-- Parts of the FIMDRAM code generator of simulator/src/pim_codegen/impl/fimdram.cpp: the tables that
-- `setup` makes, the tag of a bank in a row offset, and the operations of one bank.
pub mod BankTable
pub mod Scheme
pub mod Description
pub mod Generate
pub mod Simdram
pub mod Whole
use kvc_pim.Base.{
  ℕ, get_or, if◌then◌else◌, length, replicate, set, ◌==◌, zero, suc, ◌+◌, ◌-◌, ◌*◌, ◌/◌, ◌%◌, Bool,
  ◌&&◌, ◌||◌, List, [], ◌∷◌, ◌++◌,
}
use kvc_pim.Dram.{Dram, fill_levels}
use kvc_pim.KvTrace.{Op, Trace, bank_read, bank_write, priority_read, read, write, priority_write}

-- `total_banks`, the product of the sizes of the first levels.
unfoldable pub level_product : List ℕ → ℕ → ℕ → ℕ
level_product count from zero = 1
level_product count from (suc levels) =
    level_product count from levels * get_or count (from + levels) 0

-- The loop over the banks from `bank` on: the address vector is carried from one bank to the next.
unfoldable pub fill_bank_base_addr : Dram → ℕ → ℕ → List ℕ → List (List ℕ)
fill_bank_base_addr dram zero bank addr_vec = []
fill_bank_base_addr dram (suc rounds) bank addr_vec =
    let filled = fill_levels dram.count (dram.bank_level + 1) bank addr_vec in
    filled ∷ fill_bank_base_addr dram rounds (bank + 1) filled

-- `bank_base_addr` after `setup`.
unfoldable pub bank_base_addr : Dram → List (List ℕ)
unfolding fill_bank_base_addr level_product
bank_base_addr dram =
    fill_bank_base_addr dram (level_product dram.count 0 (dram.bank_level + 1)) 0
      (replicate (length dram.count) 0)

-- `m_rows_per_bank` after `setup`: the sizes of the levels below the bank, down to the row.
unfoldable pub rows_per_bank : Dram → ℕ
unfolding level_product
rows_per_bank dram =
    level_product dram.count (dram.bank_level + 1) (dram.row_level - dram.bank_level)

unfoldable pub add_bank_tag : Dram → ℕ → ℕ → ℕ
unfolding rows_per_bank
add_bank_tag dram row_offset global_bank_id = global_bank_id * rows_per_bank dram + row_offset

-- The row and the bank that `codegen_bank` reads from a tagged row.
abbrev pub row_of : Dram → ℕ → ℕ
row_of dram tagged = tagged % rows_per_bank dram

abbrev pub source_bank_of : Dram → ℕ → ℕ
source_bank_of dram tagged = tagged / rows_per_bank dram

-- What `codegen_bank` is called with besides the accesses.
pub record BankCall : Type 0 where
  pub global_bank_id : ℕ
  pub output_tensor : Bool
  pub bank_buffer : Bool
  pub n_values_per_dq : ℕ

module _ (dram : Dram) (call : BankCall) where
  -- An address vector with its row and its column.
  abbrev pub with_row : List ℕ → ℕ → ℕ → List ℕ
  with_row addr row column = set (set addr dram.row_level row) dram.column_level column

  abbrev pub source_addr : ℕ → ℕ → List ℕ
  source_addr tagged column =
      with_row (get_or (bank_base_addr dram) (source_bank_of dram tagged) []) (row_of dram tagged)
        column

  abbrev pub register_addr : ℕ → ℕ → List ℕ
  register_addr tagged column =
      with_row (get_or (bank_base_addr dram) call.global_bank_id []) (row_of dram tagged)
        (column % call.n_values_per_dq)

  -- The operations that read one access: a tagged row and a column.
  unfoldable pub load_access : ℕ × ℕ → List Trace
  load_access (tagged, column) =
      if (source_bank_of dram tagged == call.global_bank_id)
        || (call.output_tensor && call.bank_buffer)
      then (bank_read, source_addr tagged column) ∷ []
      else (priority_read, source_addr tagged column) ∷ (write, register_addr tagged column) ∷ []

  -- The operations that write one access back.
  unfoldable pub store_access : ℕ × ℕ → List Trace
  store_access (tagged, column) =
      if (source_bank_of dram tagged == call.global_bank_id) || call.bank_buffer
      then (bank_write, source_addr tagged column) ∷ []
      else (read, register_addr tagged column) ∷ (priority_write, source_addr tagged column) ∷ []

  unfoldable pub load_accesses : List (ℕ × ℕ) → List Trace
  unfolding load_access
  load_accesses [] = []
  load_accesses (a ∷ accesses) = load_access a ++ load_accesses accesses

  unfoldable pub store_accesses : List (ℕ × ℕ) → List Trace
  unfolding store_access
  store_accesses [] = []
  store_accesses (a ∷ accesses) = store_access a ++ store_accesses accesses

  -- The accesses stand in the order in which the map of maps is walked.
  unfoldable pub codegen_bank : List (ℕ × ℕ) → List Trace
  unfolding load_accesses store_accesses
  codegen_bank accesses =
      load_accesses accesses ++ (if call.output_tensor then store_accesses accesses else [])
