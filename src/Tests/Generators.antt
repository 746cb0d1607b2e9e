-- ===== src/Tests/Generators.antt =====
-- The theorems on the code generators at concrete inputs.
use kvc_pim.Base.{
  get_elem?, if◌then◌else◌, ltb, ◌+◌, ◌*◌, ◌^◌, ◌≤◌, ◌<◌, ◌≡◌, refl, ◌≢◌, true, false, none, some,
  List, [], ◌∷◌, map, arith,
}
use kvc_pim.KvTrace.{Op, Trace}
use kvc_pim.Dram.{Dram, fill_levels}
use kvc_pim.Codegen.Simdram.{output, bank_rows}
use kvc_pim.Codegen.Whole.{codegen_kernel, codegen_kernel-Extends}
use kvc_pim.Tests.Codegens.{words, gemm_lines}
use kvc_pim.Codegen.Generate.Appends.{Extends}
use kvc_pim.Codegen.Generate.{
  Machine, put_access, Elements, Collect, timesteps, collect_all, tid_step, Access,
}
use kvc_pim.Codegen.Scheme.{get_addr_scheme8, addr_of, addr_of-get_addr_scheme8}
use kvc_pim.Codegen.Generate.Runs.{collect_all-bank}
use kvc_pim.Codegen.Generate.Timesteps.{get_elem?-timesteps}
use kvc_pim.Codegen.Simdram.Majority.{OutputRow, bank_rows-output}

four_pos : 0 < 4
four_pos = omega arith

scheme_example :
    let p = get_addr_scheme8 3 1234 4 8 in
    (addr_of 3 4 8 p ≡ 1234) × (8 ≤ p.bank) × (p.bank < 8 + 4) × (p.col < 2 ^ (3 + 2))
scheme_example = addr_of-get_addr_scheme8 3 1234 4 8 four_pos

timesteps_example :
    get_elem? (timesteps 3 10) 2
    ≡ (if ltb (2 * tid_step 3 10) 10 then some (2 * tid_step 3 10) else none)
timesteps_example = get_elem?-timesteps 3 10 2

-- Four banks of two columns; an emitted access is a read at its row and column.
abbrev elements : Elements Unit
elements = record {
  single_bank = false;
  cols_per_bank = 2;
  first_bank = 0;
  n_spatial_elems = 8;
  emit = λ bank place accesses. map (λ a. (Op.read, bank ∷ a.row ∷ a.col ∷ [])) accesses;
  next = λ n. n + 1;
  allocate = λ sid place. ((0, sid), place);
}

abbrev after_bank_0 : Collect Unit
after_bank_0 = record {
  instructions = [];
  prev_bank_id = 0;
  accesses = record { row = 0; col = 1; number = 1 } ∷ [];
  place = tt;
}

bank_differs : 1 + 0 ≢ 0
bank_differs h = omega arith

not_last : 1 * 2 + 2 < 8
not_last = omega arith

run_example : collect_all elements 2 2 after_bank_0 ≡ record {
  instructions = (Op.read, 0 ∷ 0 ∷ 1 ∷ []) ∷ [];
  prev_bank_id = 1;
  accesses = record { row = 0; col = 3; number = 1 } ∷ [];
  place = tt;
}
unfolding put_access
run_example = collect_all-bank elements 1 1 after_bank_0 refl refl bank_differs not_last

-- Values of two bits in bank 1 of a small device: row 3 of the bank, two columns.
abbrev device : Dram
device = record {
  count = 2 ∷ 2 ∷ 2 ∷ 8 ∷ 16 ∷ [];
  channel_level = 0;
  bankgroup_level = some 1;
  bank_level = 2;
  row_level = 3;
  column_level = 4;
}

abbrev two_columns : List Access
two_columns =
    record { row = 11; col = 0; number = 1 } ∷ record { row = 11; col = 5; number = 1 } ∷ []

two_bits : 0 < 2
two_bits = omega arith

majority_example :
    OutputRow device 2 false 11 two_columns
      (bank_rows device 2 output false ((11, two_columns) ∷ []))
majority_example = bank_rows-output device 2 false 11 two_columns two_bits

abbrev machine : Machine
machine = record {
  dram = device;
  bank_buffer = true;
  n_values_per_dq = 1;
  sim_timesteps = 0;
  column_bits = 4;
  walk = λ accesses. accesses;
}

abbrev start : List Trace
start = (Op.write, 1 ∷ []) ∷ []

abbrev generated : List Trace
generated =
    (Op.write, 1 ∷ [])
    ∷ (Op.bank_read, 0 ∷ 0 ∷ 0 ∷ 0 ∷ 0 ∷ [])
    ∷ (Op.bank_read, 0 ∷ 0 ∷ 0 ∷ 1 ∷ 0 ∷ [])
    ∷ (Op.bank_read, 0 ∷ 0 ∷ 0 ∷ 2 ∷ 0 ∷ [])
    ∷ (Op.bank_write, 0 ∷ 0 ∷ 0 ∷ 2 ∷ 0 ∷ [])
    ∷ []

generates : codegen_kernel words "bank_duplicate" machine false gemm_lines start ≡ some generated
unfolding codegen_kernel fill_levels
generates = refl

Extends-example : Extends start generated
Extends-example =
    codegen_kernel-Extends words "bank_duplicate" machine false gemm_lines start generated generates
