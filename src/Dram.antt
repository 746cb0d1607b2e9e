-- ===== src/Dram.antt =====
-- What the placement code reads of a DRAM device (`m_levels` and `m_organization` of `IDRAM`,
-- simulator/src/dram/dram.h), and the decomposition of a global bank number into levels that
-- simulator/src/frontend/impl/memory_trace/kv_cache_trace_generator.h and the two code generators of
-- simulator/src/pim_codegen/impl share.
pub mod Decompose
use kvc_pim.Base.{
  ℕ, get_or, length, minus_one, replicate, set, ℤ, zero, suc, ◌+◌, ◌/◌, ◌%◌, Option, none, some,
  List, pos,
}

-- `count` has an entry for each level, from the channel down; the other fields are `m_levels(name)`.
pub record Dram : Type 0 where
  pub count : List ℕ
  pub channel_level : ℕ
  pub bankgroup_level : Option ℕ
  pub bank_level : ℕ
  pub row_level : ℕ
  pub column_level : ℕ

-- `get_level_size`, which is -1 for a level that the device does not have.
unfoldable pub get_level_size : List ℕ → Option ℕ → ℤ
get_level_size count none = minus_one
get_level_size count (some level) = pos (get_or count level 0)

-- The loop `for (j = bank_level; j >= 0; j--)`, over the levels below `levels`.
unfoldable pub fill_levels : List ℕ → ℕ → ℕ → List ℕ → List ℕ
fill_levels count zero id addr = addr
fill_levels count (suc level) id addr =
    fill_levels count level (id / get_or count level 0) (set addr level (id % get_or count level 0))

-- The address vector of a global bank: all levels below the bank are 0.
unfoldable pub bank_addr_vec : Dram → ℕ → List ℕ
unfolding fill_levels
bank_addr_vec dram bank =
    fill_levels dram.count (dram.bank_level + 1) bank (replicate (length dram.count) 0)
