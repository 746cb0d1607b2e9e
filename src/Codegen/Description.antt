-- ===== src/Codegen/Description.antt =====
-- The descriptions of the kernels in a trace, which `codegen_conv2d` and `codegen_gemm` of
-- simulator/src/pim_codegen/codegen.h read line by line.
use kvc_pim.Base.{ℕ, if◌then◌else◌, Bool, Option, none, some, List, [], ◌∷◌, ◌++◌, map, get_or}
use Prim.Native.String.{String}
use text.Mathlib.Text.{◌==◌ as str_eq}
use kvc_pim.DataSpace.Kernels.{ConvSteps}

infixl 5 ◌>>=◌
abbrev pub ◌>>=◌ : {A B : Type 0} → Option A → (A → Option B) → Option B
none >>= f = none
some a >>= f = f a

-- What the code calls on a string: `find` of a word, `tokenize` at "," and at "_", `std::stoi` (which
-- may throw), and the first character, as a string of one character. `beyond` is what a read past the
-- end of a vector of strings gives where it does not crash, and `characters` the string itself.
pub record Text (Str : Type 0) : Type 0 where
  pub contains : Str → String → Bool
  pub at_commas : Str → List Str
  pub at_underscores : Str → List Str
  pub stoi : Str → Option ℕ
  pub front : Str → String
  pub beyond : Str
  pub characters : Str → String

-- The variables that the loop over the lines fills.
pub record Description (Str : Type 0) : Type 0 where
  pub problem_dims : List ℕ
  pub steps : ConvSteps
  pub loops : List Str
  pub ptags : List String
  pub dims : List ℕ
  pub banks : List ℕ
  pub rows : List ℕ
  pub coeffs : List (String × List ℕ)

abbrev pub no_lines : {Str : Type 0} → Description Str
no_lines = record {
  problem_dims = [];
  steps = record { w_dilation = 1; h_dilation = 1; w_stride = 1; h_stride = 1 };
  loops = [];
  ptags = [];
  dims = [];
  banks = [];
  rows = [];
  coeffs = [];
}

-- `coeffs[dim_tag] = coeffs_vec`
unfoldable pub set_coeffs : String → List ℕ → List (String × List ℕ) → List (String × List ℕ)
set_coeffs dim ns [] = (dim, ns) ∷ []
set_coeffs dim ns (c ∷ coeffs) =
    let rest = set_coeffs dim ns coeffs in if str_eq c.0 dim then (dim, ns) ∷ coeffs else c ∷ rest

-- `none` is the exception of `std::stoi`.
module _ {Str : Type 0} (text : Text Str) where
  unfoldable pub stois : List Str → Option (List ℕ)
  stois [] = some []
  stois (s ∷ array) = do n ← text.stoi s; ns ← stois array; some (n ∷ ns)

  unfoldable pub stoi_at : List Str → ℕ → Option ℕ
  stoi_at array i = text.stoi (get_or array i text.beyond)

  -- The tests of a line's first token, with the parts of its second.
  unfoldable pub read_problem : Str → List Str → Description Str → Option (Description Str)
  unfolding stois
  read_problem key array d =
      if text.contains key "Problem"
      then (do ns ← stois array; some (record d { problem_dims = d.problem_dims ++ ns }))
      else some d

  -- The four numbers of the test for "DilationStride".
  unfoldable pub read_steps : List Str → Description Str → Option (Description Str)
  unfolding stoi_at
  read_steps array d = do
    w_dilation ← stoi_at array 0
    h_dilation ← stoi_at array 1
    w_stride ← stoi_at array 2
    h_stride ← stoi_at array 3
    some (record d {
      steps = record {
        w_dilation = w_dilation;
        h_dilation = h_dilation;
        w_stride = w_stride;
        h_stride = h_stride;
      };
    })

  unfoldable pub read_dilation_stride : Str → List Str → Description Str → Option (Description Str)
  unfolding read_steps
  read_dilation_stride key array d =
      if text.contains key "DilationStride" then read_steps array d else some d

  unfoldable pub read_loop : Str → List Str → Description Str → Description Str
  read_loop key array d =
      if text.contains key "Loop" then record d { loops = d.loops ++ array } else d

  unfoldable pub read_bound : Str → List Str → Description Str → Option (Description Str)
  unfolding stois
  read_bound key array d =
      if text.contains key "Bound"
      then (do ns ← stois array; some (record d { dims = d.dims ++ ns }))
      else some d

  unfoldable pub read_tag : Str → List Str → Description Str → Description Str
  read_tag key array d =
      if text.contains key "Tag" then record d { ptags = d.ptags ++ map text.front array } else d

  -- The two numbers of the test for "StartBankRow".
  unfoldable pub read_start : List Str → Description Str → Option (Description Str)
  unfolding stoi_at
  read_start array d = do
    bank ← stoi_at array 0
    row ← stoi_at array 1
    some (record d { banks = d.banks ++ (bank ∷ []); rows = d.rows ++ (row ∷ []) })

  unfoldable pub read_start_bank_row : Str → List Str → Description Str → Option (Description Str)
  unfolding read_start
  read_start_bank_row key array d =
      if text.contains key "StartBankRow" then read_start array d else some d

  -- The numbers of the test for "Coeff", for the dimension after the "_" of the first token.
  unfoldable pub read_coeffs : Str → List Str → Description Str → Option (Description Str)
  unfolding stois set_coeffs
  read_coeffs key array d =
      let name = get_or (text.at_underscores key) 1 text.beyond in
      do ns ← stois array; some (record d { coeffs = set_coeffs (text.front name) ns d.coeffs })

  unfoldable pub read_coeff : Str → List Str → Description Str → Option (Description Str)
  unfolding read_coeffs
  read_coeff key array d = if text.contains key "Coeff" then read_coeffs key array d else some d

  -- `tokens[0]`, and the parts of `tokens[1]`.
  abbrev pub key_of : List Str → Str
  key_of tokens = get_or tokens 0 text.beyond

  abbrev pub array_of : List Str → List Str
  array_of tokens = text.at_commas (get_or tokens 1 text.beyond)

  unfoldable pub conv2d_line : List Str → Description Str → Option (Description Str)
  unfolding read_problem read_dilation_stride read_loop read_bound read_tag read_start_bank_row
      read_coeff
  conv2d_line tokens d = do
    sized ← read_problem (key_of tokens) (array_of tokens) d
    stepped ← read_dilation_stride (key_of tokens) (array_of tokens) sized
    bounded ←
        read_bound (key_of tokens) (array_of tokens)
          (read_loop (key_of tokens) (array_of tokens) stepped)
    started ←
        read_start_bank_row (key_of tokens) (array_of tokens)
          (read_tag (key_of tokens) (array_of tokens) bounded)
    read_coeff (key_of tokens) (array_of tokens) started

  unfoldable pub gemm_line : List Str → Description Str → Option (Description Str)
  unfolding read_problem read_loop read_bound read_tag read_start_bank_row read_coeff
  gemm_line tokens d = do
    sized ← read_problem (key_of tokens) (array_of tokens) d
    bounded ←
        read_bound (key_of tokens) (array_of tokens)
          (read_loop (key_of tokens) (array_of tokens) sized)
    started ←
        read_start_bank_row (key_of tokens) (array_of tokens)
          (read_tag (key_of tokens) (array_of tokens) bounded)
    read_coeff (key_of tokens) (array_of tokens) started

  -- The loop over the lines of `codegen_conv2d`.
  unfoldable pub codegen_conv2d : List (List Str) → Description Str → Option (Description Str)
  unfolding conv2d_line
  codegen_conv2d [] d = some d
  codegen_conv2d (tokens ∷ lines) d = do next ← conv2d_line tokens d; codegen_conv2d lines next

  -- The loop over the lines of `codegen_gemm`.
  unfoldable pub codegen_gemm : List (List Str) → Description Str → Option (Description Str)
  unfolding gemm_line
  codegen_gemm [] d = some d
  codegen_gemm (tokens ∷ lines) d = do next ← gemm_line tokens d; codegen_gemm lines next
