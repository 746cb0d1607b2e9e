-- ===== src/KvTrace.antt =====
-- `KVCacheTraceGenerator` of simulator/src/frontend/impl/memory_trace/kv_cache_trace_generator.h.
pub mod Rows
pub mod Steps
use kvc_pim.Base.{
  ℕ, Map, empty_map, if◌then◌else◌, insert, is_empty, leb_ℤ, length, ltb, set, ℤ, zero, suc, ◌+◌,
  ◌-◌, ◌*◌, ◌/◌, Option, none, some, List, [], ◌∷◌, ◌++◌, pos, negsuc, int_key,
}
use kvc_pim.Dram.{Dram, bank_addr_vec}
use kvc_pim.Policy.Interface.{IkvCachePolicy}

-- The operation names of a trace: the strings "read", "write", "compute" and so on.
pub data Op : Type 0 where
  read write compute subarray_read subarray_write bank_read bank_write kernel : Op
  priority_read priority_write : Op

-- An operation and its address vector.
abbrev pub Trace : Type 0
Trace = Op × List ℕ

-- The policy object is owned by the front end and changed by the generator: its state is here.
-- `dram` is `none` for the null pointer. The conflict tracker is stored and never called.
pub record Generator (State : Type 0) : Type 0 where
  pub policy_state : State
  pub dram : Option Dram
  pub num_banks : ℤ
  pub head_dim : ℕ
  pub hidden_dim : ℕ
  pub block_size : ℕ
  pub token_to_bank : Map ℤ ℕ

unfoldable pub create : {State : Type 0} → State → Option Dram → ℤ → Generator State
create policy_state dram num_banks = record {
  policy_state = policy_state;
  dram = dram;
  num_banks = num_banks;
  head_dim = 128;
  hidden_dim = 4096;
  block_size = 4096;
  token_to_bank = empty_map;
}

unfoldable pub set_kv_cache_params :
    {State : Type 0} → ℕ → ℕ → ℕ → Generator State → Generator State
set_kv_cache_params head_dim hidden_dim block_size g = record g {
  head_dim = head_dim;
  hidden_dim = hidden_dim;
  block_size = block_size;
}

-- An invalid bank, or a null device, gives the empty vector.
unfoldable pub bank_id_to_addr_vec : Option Dram → ℤ → ℤ → List ℕ
bank_id_to_addr_vec none num_banks bank = []
bank_id_to_addr_vec (some dram) num_banks (negsuc b) = []
bank_id_to_addr_vec (some dram) num_banks (pos b) =
    if leb_ℤ num_banks (pos b) then [] else bank_addr_vec dram b

-- `(size + 8192 - 1) / 8192`
abbrev pub rows_for : ℕ → ℕ
rows_for size = (size + 8192 - 1) / 8192

-- `if (level >= 0 && level < size) addr_vec[level] = v`
abbrev pub set_level : List ℕ → ℕ → ℕ → List ℕ
set_level addr level v = if ltb level (length addr) then set addr level v else addr

-- The loop over the rows: rounds left, row.
unfoldable pub row_traces : Op → Dram → List ℕ → ℕ → ℕ → List Trace
row_traces op dram base zero row = []
row_traces op dram base (suc rounds) row =
    (op, set_level (set_level base dram.row_level row) dram.column_level 0)
    ∷ row_traces op dram base rounds (row + 1)

-- The traces of `size` bytes in a bank, none if the bank has no address vector.
unfoldable pub bank_traces : Op → Option Dram → ℤ → ℤ → ℕ → List Trace
unfolding row_traces bank_id_to_addr_vec
bank_traces op none num_banks bank size = []
bank_traces op (some dram) num_banks bank size =
    let base = bank_id_to_addr_vec (some dram) num_banks bank in
    if is_empty base then [] else row_traces op dram base (rows_for size) 0

-- The tokens from `first` on, `rounds` of them.
unfoldable pub tokens_from : ℕ → ℕ → List ℤ
tokens_from zero first = []
tokens_from (suc rounds) first = pos first ∷ tokens_from rounds (first + 1)

-- `m_kv_cache_head_dim * m_kv_cache_hidden_dim * sizeof(float) * 2`
abbrev pub kv_data_size : {State : Type 0} → Generator State → ℕ
kv_data_size g = g.head_dim * g.hidden_dim * 4 * 2

module _ (policy : IkvCachePolicy) where
  open policy use {State, allocate_kv_cache_bank, get_kv_cache_bank}

  unfoldable pub generate_kv_cache_write : ℤ → ℕ → Generator State → List Trace × Generator State
  unfolding bank_traces
  generate_kv_cache_write token size g =
      let allocated = allocate_kv_cache_bank size token g.policy_state in
      let placed = record g { policy_state = allocated.1 } in
      elim allocated.0 [
        | negsuc b ↦ ([], placed)
        | pos b ↦ (
          bank_traces write g.dram g.num_banks (pos b) size,
          record placed { token_to_bank = insert token b g.token_to_bank },
        )
      ]

  -- The traces for one token that is read.
  unfoldable pub read_token : Generator State → ℤ → List Trace
  unfolding bank_traces
  read_token g token = elim (get_kv_cache_bank token g.policy_state) [
    | negsuc b ↦ []
    | pos b ↦ bank_traces read g.dram g.num_banks (pos b) g.block_size
  ]

  unfoldable pub generate_kv_cache_read : Generator State → List ℤ → List Trace
  unfolding read_token
  generate_kv_cache_read g [] = []
  generate_kv_cache_read g (token ∷ tokens) = read_token g token ++ generate_kv_cache_read g tokens

  unfoldable pub generate_inference_step : ℕ → Generator State → List Trace × Generator State
  unfolding generate_kv_cache_read generate_kv_cache_write tokens_from
  generate_inference_step current g =
      let written = generate_kv_cache_write (pos current) (kv_data_size g) g in
      (generate_kv_cache_read g (tokens_from current 0) ++ written.0, written.1)
