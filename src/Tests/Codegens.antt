-- ===== src/Tests/Codegens.antt =====
-- The code generator's tables and bank operations, and the weight loader, at concrete inputs
-- (simulator/src/pim_codegen).
use kvc_pim.Base.{
  ◌↔◌, ℕ, get_or, get_elem?, ◌==◌, ◌+◌, ◌<◌, ◌≡◌, refl, true, some, List, [], ◌∷◌, arith, pos,
}
use kvc_pim.Dram.{Dram, bank_addr_vec}
use kvc_pim.Dram.Decompose.{capacity}
use kvc_pim.Policy.Weights.{has_weights}
use kvc_pim.Codegen.{bank_base_addr}
use Prim.Native.String.{String}
use text.Mathlib.Text.{◌==◌ as str_eq}
use kvc_pim.Codegen.Description.{Text, codegen_gemm, no_lines}
use kvc_pim.Codegen.BankTable.{get_elem?-bank_base_addr}
use kvc_pim.WeightLoader.{Strings, extract_weight_banks}
use kvc_pim.WeightLoader.Extracted.{AccessTo, has_weights-extract_weight_banks}

abbrev device : Dram
device = record {
  count = 2 ∷ 2 ∷ 2 ∷ 8 ∷ 16 ∷ [];
  channel_level = 0;
  bankgroup_level = some 1;
  bank_level = 2;
  row_level = 3;
  column_level = 4;
}

five_in : 5 < capacity (2 ∷ 2 ∷ 2 ∷ 8 ∷ 16 ∷ []) 3
unfolding capacity
five_in = omega arith

table_example : get_elem? (bank_base_addr device) 5 ≡ some (bank_addr_vec device 5)
table_example = get_elem?-bank_base_addr device 5 five_in

-- Strings that are numbers: 0 is the word of an access, a number is its own segments.
abbrev numbers : Strings
numbers = record {
  Str = ℕ;
  is_access = λ n. n == 0;
  split_commas = λ n. 0 ∷ n ∷ [];
  stoi = λ n. some (pos n);
  stoull = λ n. some n;
}

abbrev lines : List (List ℕ)
lines = (0 ∷ 3 ∷ []) ∷ (7 ∷ 2 ∷ []) ∷ []

loader_example :
    (has_weights (pos 3) (extract_weight_banks numbers 4 lines) ≡ true)
    ↔ ((i : ℕ) × (line : List ℕ) × (get_elem? lines i ≡ some line) × AccessTo numbers 4 3 line)
loader_example = has_weights-extract_weight_banks numbers 4 3 lines

-- Descriptions as numbers: each is a word, and has itself and the next as its parts.
abbrev word : ℕ → String
word s =
    get_or
      ("gemm" ∷ "Problem" ∷ "Loop" ∷ "Bound" ∷ "Tag" ∷ "StartBankRow" ∷ "P" ∷ "P" ∷ "N" ∷ "H" ∷ [])
      s "gemm"

abbrev pub words : Text ℕ
words = record {
  contains = λ s w. str_eq (word s) w;
  at_commas = λ s. s ∷ (s + 1) ∷ [];
  at_underscores = λ s. s ∷ [];
  stoi = some;
  front = word;
  beyond = 0;
  characters = word;
}

abbrev pub gemm_lines : List (List ℕ)
gemm_lines =
    (0 ∷ []) ∷ (1 ∷ 2 ∷ []) ∷ (2 ∷ 8 ∷ []) ∷ (3 ∷ 2 ∷ []) ∷ (4 ∷ 6 ∷ []) ∷ (5 ∷ 0 ∷ []) ∷ []

run_lines :
    codegen_gemm words gemm_lines no_lines
    ≡ some (record no_lines {
      problem_dims = 2 ∷ 3 ∷ [];
      loops = 8 ∷ 9 ∷ [];
      ptags = "P" ∷ "P" ∷ [];
      dims = 2 ∷ 3 ∷ [];
      banks = 0 ∷ [];
      rows = 1 ∷ [];
    })
unfolding codegen_gemm
run_lines = refl
