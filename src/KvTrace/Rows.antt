-- ===== src/KvTrace/Rows.antt =====
-- The operations that `KVCacheTraceGenerator` makes for one token
-- (simulator/src/frontend/impl/memory_trace/kv_cache_trace_generator.h).
use kvc_pim.Base.{
  ℕ, get_elem?, get_or, length, set, zero, suc, ◌+◌, ◌≤◌, ◌<◌, ◌≡◌, refl, ap, ◌∙◌, ◌≢◌, some, List,
  arith, get_or-set_ne, get_or-set_self, length-set, lt→ltb, sym, subst, pos, is_empty, false, [],
  ◌∷◌,
}
use kvc_pim.Dram.{Dram, bank_addr_vec}
use kvc_pim.Dram.Decompose.{capacity, position, bank_addr_vec_lem, position-set}
use kvc_pim.KvTrace.{Op, bank_id_to_addr_vec, rows_for, set_level, row_traces, bank_traces}

-- The levels of a device: every level has a size, and the row and the column are two levels below the
-- bank.
pub record IsDevice (dram : Dram) : Type 0 where
  pub sizes : (j : ℕ) → j ≤ dram.bank_level → 0 < get_or dram.count j 0
  pub row_below : dram.bank_level < dram.row_level
  pub column_below : dram.bank_level < dram.column_level
  pub apart : dram.row_level ≢ dram.column_level
  pub row_in : dram.row_level < length dram.count
  pub column_in : dram.column_level < length dram.count

-- The entry `i` rounds on.
row_addr : Dram → List ℕ → ℕ → List ℕ
row_addr dram base row = set_level (set_level base dram.row_level row) dram.column_level 0

length-row_traces :
    (op : Op) (dram : Dram) (base : List ℕ) (rounds row : ℕ)
    → length (row_traces op dram base rounds row) ≡ rounds
unfolding row_traces
length-row_traces op dram base zero row = refl
length-row_traces op dram base (suc rounds) row =
    ap suc (length-row_traces op dram base rounds (row + 1))

get_elem?-row_traces :
    (op : Op) (dram : Dram) (base : List ℕ) (rounds row i : ℕ)
    → i < rounds
    → get_elem? (row_traces op dram base rounds row) i ≡ some (op, row_addr dram base (row + i))
unfolding row_traces row_addr
get_elem?-row_traces op dram base zero row i h = absurd (omega arith)
get_elem?-row_traces op dram base (suc rounds) row zero h =
    ap (λ k. some (op, row_addr dram base k)) (omega arith)
get_elem?-row_traces op dram base (suc rounds) row (suc i) h =
    get_elem?-row_traces op dram base rounds (row + 1) i (omega arith)
    ∙ ap (λ k. some (op, row_addr dram base k)) (omega arith)

-- A row of a bank: the bank's position, the row and column 0.
pub record IsRow (dram : Dram) (bank row : ℕ) (addr : List ℕ) : Type 0 where
  pub size : length addr ≡ length dram.count
  pub in_bank : position dram.count addr (dram.bank_level + 1) ≡ bank
  pub in_row : get_or addr dram.row_level 0 ≡ row
  pub in_column : get_or addr dram.column_level 0 ≡ 0

set_level_in :
    (addr : List ℕ) (level v : ℕ) → level < length addr → set_level addr level v ≡ set addr level v
set_level_in addr level v h = rw (lt→ltb level (length addr) h)

row_addr_lem :
    (dram : Dram) (base : List ℕ) (row : ℕ)
    → IsDevice dram
    → length base ≡ length dram.count
    → row_addr dram base row ≡ set (set base dram.row_level row) dram.column_level 0
unfolding row_addr
row_addr_lem dram base row d e =
    ap (λ addr. set_level addr dram.column_level 0)
      (set_level_in base dram.row_level row (omega (arith, d.row_in, e)))
    ∙ set_level_in (set base dram.row_level row) dram.column_level 0
        (omega (arith, d.column_in, e, length-set base dram.row_level row))

row_addr-IsRow :
    (dram : Dram) (bank row : ℕ)
    → IsDevice dram
    → bank < capacity dram.count (dram.bank_level + 1)
    → IsRow dram bank row (row_addr dram (bank_addr_vec dram bank) row)
row_addr-IsRow dram bank row d h =
    subst (IsRow dram bank row) (sym (row_addr_lem dram base row d b.0)) (record {
      size = length-set rowed dram.column_level 0 ∙ length-set base dram.row_level row ∙ b.0;
      in_bank =
          position-set dram.count rowed (dram.bank_level + 1) dram.column_level 0
            (omega (arith, d.column_below))
          ∙ position-set dram.count base (dram.bank_level + 1) dram.row_level row
              (omega (arith, d.row_below))
          ∙ b.1;
      in_row =
          get_or-set_ne rowed dram.column_level dram.row_level 0 0 (λ e. d.apart (sym e))
          ∙ get_or-set_self base dram.row_level row 0 (omega (arith, d.row_in, b.0));
      in_column =
          get_or-set_self rowed dram.column_level 0 0
            (omega (arith, d.column_in, b.0, length-set base dram.row_level row));
    })
  where
    base : List ℕ
    base = bank_addr_vec dram bank

    rowed : List ℕ
    rowed = set base dram.row_level row

    b :
        (length (bank_addr_vec dram bank) ≡ length dram.count)
        × (position dram.count (bank_addr_vec dram bank) (dram.bank_level + 1) ≡ bank)
        × ((j : ℕ)
            → j ≤ dram.bank_level
            → get_or (bank_addr_vec dram bank) j 0 < get_or dram.count j 0)
        × ((j : ℕ) → dram.bank_level < j → get_or (bank_addr_vec dram bank) j 0 ≡ 0)
    b = bank_addr_vec_lem dram bank (omega (arith, d.row_below, d.row_in)) d.sizes h

has_entries : (xs : List ℕ) → 0 < length xs → is_empty xs ≡ false
has_entries [] h = absurd (omega arith)
has_entries (x ∷ xs) h = refl

vec_in :
    (dram : Dram) (banks bank : ℕ)
    → bank < banks
    → bank_id_to_addr_vec (some dram) (pos banks) (pos bank) ≡ bank_addr_vec dram bank
unfolding bank_id_to_addr_vec
vec_in dram banks bank lt = ground arith

bank_traces_of :
    (op : Op) (dram : Dram) (banks bank size : ℕ)
    → bank_id_to_addr_vec (some dram) (pos banks) (pos bank) ≡ bank_addr_vec dram bank
    → is_empty (bank_addr_vec dram bank) ≡ false
    → bank_traces op (some dram) (pos banks) (pos bank) size
      ≡ row_traces op dram (bank_addr_vec dram bank) (rows_for size) 0
unfolding bank_traces
bank_traces_of op dram banks bank size e ne = rw (e, ne)

-- For a bank below the generator's number of banks, which the device has, the base address vector is
-- that of the bank.
bank_traces_in :
    (op : Op) (dram : Dram) (banks bank size : ℕ)
    → IsDevice dram
    → bank < banks
    → banks ≤ capacity dram.count (dram.bank_level + 1)
    → bank_traces op (some dram) (pos banks) (pos bank) size
      ≡ row_traces op dram (bank_addr_vec dram bank) (rows_for size) 0
bank_traces_in op dram banks bank size d lt le =
    let e : length (bank_addr_vec dram bank) ≡ length dram.count =
      (bank_addr_vec_lem dram bank (omega (arith, d.row_below, d.row_in)) d.sizes
        (omega (arith, lt, le))).0 in
    bank_traces_of op dram banks bank size (vec_in dram banks bank lt)
      (has_entries (bank_addr_vec dram bank) (omega (arith, e, d.row_in)))

-- The operations on `size` bytes in a bank below the generator's number of banks, which the device
-- has: as many as the bytes fill rows of 8192 bytes, each of the given kind, the `i`-th at row `i` and
-- column 0 of that bank.
pub bank_traces_lem :
    (op : Op) (dram : Dram) (banks bank size : ℕ)
    → IsDevice dram
    → bank < banks
    → banks ≤ capacity dram.count (dram.bank_level + 1)
    → let traces = bank_traces op (some dram) (pos banks) (pos bank) size in
      (length traces ≡ rows_for size)
      × ((i : ℕ)
          → i < rows_for size
          → (addr : List ℕ) × (get_elem? traces i ≡ some (op, addr)) × IsRow dram bank i addr)
bank_traces_lem op dram banks bank size d lt le =
    let e = bank_traces_in op dram banks bank size d lt le in
    (
      ap length e ∙ length-row_traces op dram (bank_addr_vec dram bank) (rows_for size) 0,
      λ i h. (
        row_addr dram (bank_addr_vec dram bank) (0 + i),
        ap (λ ts. get_elem? ts i) e
            ∙ get_elem?-row_traces op dram (bank_addr_vec dram bank) (rows_for size) 0 i h,
        subst (λ k. IsRow dram bank k (row_addr dram (bank_addr_vec dram bank) (0 + i)))
            (omega arith) (row_addr-IsRow dram bank (0 + i) d (omega arith)),
      ),
    )
