-- ===== src/Codegen/Whole.antt =====
-- The layout of a kernel from its description (the constructors of simulator/src/pim_codegen/layout.h,
-- with the arguments of simulator/src/pim_codegen/codegen.h), and `codegen_kernel` of
-- simulator/src/pim_codegen/impl/fimdram.cpp.
use kvc_pim.Base.{
  ℕ, get_or, length, if◌then◌else◌, ◌+◌, ◌≡◌, refl, Bool, Option, none, some, List, [], ◌∷◌, map,
  subst, some_inj, none≢some,
}
use Prim.Native.String.{String}
use text.Mathlib.Text.{◌==◌ as str_eq}
use kvc_pim.KvTrace.{Trace}
use kvc_pim.DataSpace.{Projection, calc_data_space}
use kvc_pim.DataSpace.Kernels.{
  conv_projection, gemm_projection, conv_dim_names, gemm_dim_names, inputs, filters, outputs,
  bound_loop,
}
use kvc_pim.Layout.{Level, Tag, parallel, sequential, get_spatial_hierarchy}
use kvc_pim.Layout.Numbering.{Table, first_tables}
use kvc_pim.Codegen.Description.{
  Text, Description, codegen_conv2d, codegen_gemm, no_lines, key_of, ◌>>=◌,
}
use kvc_pim.Codegen.Generate.{Kernel, Machine}
use kvc_pim.Codegen.Generate.Dispatch.{codegen}
use kvc_pim.Codegen.Generate.Appends.{Extends, codegen-Extends}

unfoldable pub tag_of : String → Tag
tag_of ptag = if str_eq ptag "P" then parallel else sequential

-- `m_loops`, `m_ptags` and `m_dims` from the index `i` on, as the loops over `m_ptags` read them.
unfoldable pub levels_from : List String → List ℕ → ℕ → List String → List Level
unfolding tag_of
levels_from loops dims i [] = []
levels_from loops dims i (ptag ∷ ptags) =
    record { loop = get_or loops i ""; ptag = tag_of ptag; dim = get_or dims i 0 }
    ∷ levels_from loops dims (i + 1) ptags

module _ {Str : Type 0} (text : Text Str) where
  -- The constructor, with the projections and the names of a kernel's dimensions; `none` is its
  -- exception.
  unfoldable pub make_layout :
      List Projection → List String → Bool → Description Str → Option Kernel
  unfolding levels_from get_spatial_hierarchy calc_data_space bound_loop
  make_layout projections dim_names single_bank_opt d =
      let levels = levels_from (map text.characters d.loops) d.dims 0 d.ptags in
      do
        hierarchy ← get_spatial_hierarchy levels
        some (record {
          plan = record {
            levels = levels;
            projections = projections;
            coeffs = d.coeffs;
            dim_names = dim_names;
            single_bank_opt = single_bank_opt;
            spatial_cols = hierarchy.spatial_cols;
          };
          hierarchy = hierarchy;
          bounds = map (λ p. calc_data_space (bound_loop dim_names d.problem_dims) p) projections;
          output_tensor = 2;
          weight_tensor = 1;
          first_bank = get_or d.banks 0 0;
          first_row = get_or d.rows 0 0;
        })

  unfoldable pub conv_layout : Bool → List (List Str) → Option Kernel
  unfolding codegen_conv2d make_layout conv_projection
  conv_layout single_bank_opt tokens_list = do
    d ← codegen_conv2d text tokens_list no_lines
    make_layout
        (conv_projection d.steps inputs
          ∷ conv_projection d.steps filters
          ∷ conv_projection d.steps outputs
          ∷ [])
        conv_dim_names single_bank_opt d

  unfoldable pub gemm_layout : Bool → List (List Str) → Option Kernel
  unfolding codegen_gemm make_layout gemm_projection
  gemm_layout single_bank_opt tokens_list = do
    d ← codegen_gemm text tokens_list no_lines
    make_layout (gemm_projection inputs ∷ gemm_projection filters ∷ gemm_projection outputs ∷ [])
        gemm_dim_names single_bank_opt d

  -- The layout by the kernel's name, `tokens_list[0][0]`; another name leaves a null pointer, which
  -- the generator reads.
  unfoldable pub kernel_layout : Bool → List (List Str) → Option Kernel
  unfolding conv_layout gemm_layout
  kernel_layout single_bank_opt tokens_list =
      let kernel_string = text.characters (key_of text (get_or tokens_list 0 [])) in
      if str_eq kernel_string "conv2d"
      then conv_layout single_bank_opt tokens_list
      else if str_eq kernel_string "gemm"
      then gemm_layout single_bank_opt tokens_list
      else none

  unfoldable pub codegen_kernel :
      String → Machine → Bool → List (List Str) → List Trace → Option (List Trace)
  unfolding kernel_layout codegen first_tables
  codegen_kernel alloc_method m single_bank_opt tokens_list instructions = do
    k ← kernel_layout single_bank_opt tokens_list
    answer ←
        codegen alloc_method m k
          (first_tables k.hierarchy.spatial_banks (length k.plan.projections)) instructions
    some answer.1

  from_answer :
      (alloc_method : String) (m : Machine) (k : Kernel) (tables : List (List Table))
      (instructions out : List Trace) (answer : Option (List (List Table) × List Trace))
      → codegen alloc_method m k tables instructions ≡ answer
      → (answer >>= (λ a. some a.1)) ≡ some out
      → Extends instructions out
  from_answer alloc_method m k tables instructions out none e h = absurd (none≢some h)
  from_answer alloc_method m k tables instructions out (some a) e h =
      subst (Extends instructions) (some_inj h)
        (codegen-Extends alloc_method m k tables a.0 instructions a.1 e)

  from_layout :
      (alloc_method : String) (m : Machine) (instructions out : List Trace) (layout : Option Kernel)
      → (layout >>= λ k.
          (codegen alloc_method m k
              (first_tables k.hierarchy.spatial_banks (length k.plan.projections))
              instructions
            >>= λ a. some a.1))
        ≡ some out
      → Extends instructions out
  from_layout alloc_method m instructions out none h = absurd (none≢some h)
  from_layout alloc_method m instructions out (some k) h =
      from_answer alloc_method m k _ instructions out _ refl h

  -- Whatever the description of a kernel, where the generator of the FIMDRAM does not throw, the
  -- instructions are those that it was given with more behind them.
  pub codegen_kernel-Extends :
      (alloc_method : String) (m : Machine) (single_bank_opt : Bool) (tokens_list : List (List Str))
      (instructions out : List Trace)
      → codegen_kernel alloc_method m single_bank_opt tokens_list instructions ≡ some out
      → Extends instructions out
  unfolding codegen_kernel
  codegen_kernel-Extends alloc_method m single_bank_opt tokens_list instructions out h =
      from_layout alloc_method m instructions out (kernel_layout single_bank_opt tokens_list) h
