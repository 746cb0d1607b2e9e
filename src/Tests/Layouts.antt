-- ===== src/Tests/Layouts.antt =====
-- The layout theorems on a small convolution: two banks, two time steps and two columns, with the
-- single-bank option off.
use kvc_pim.Base.{
  ◌≤◌, zero, suc, ◌*◌, ◌<◌, ◌≡◌, refl, false, some, List, [], ◌∷◌, arith, lookup, nat_key, ℕ,
  replicate,
}
use Prim.Native.String.{String}
use kvc_pim.Layout.{
  Level, Tag, cols_per_bank, parallel, SpatialHierarchy, get_spatial_hierarchy, sequential,
  setup_timestep,
}
use kvc_pim.Layout.Numbering.Tables.{tables_after, table_at, tables_after-lookup_injective}
use kvc_pim.Layout.Infer.{
  Search, recursive_infer, first_vars, Plan, dim_sizes, infer_pim_tensors, one_each, mul_at,
}
use kvc_pim.Layout.Infer.Timed.{NonZero, element_at, infer_pim_tensors-element}
use kvc_pim.DataSpace.Kernels.{
  ConvSteps, conv_projection, inputs, filters, bound_loop, outputs, conv_dim_names,
}
use kvc_pim.Layout.Hierarchy.{IsHierarchy, get_spatial_hierarchy-IsHierarchy}
use kvc_pim.Layout.Timestep.Legal.{IsTimestep, setup_timestep-IsTimestep}
use kvc_pim.Layout.Infer.Element.{cell, pushed, kept}
use kvc_pim.DataSpace.Hash.{Within}
use kvc_pim.DataSpace.{DataSpaceIdx, calc_data_space}
use kvc_pim.Layout.Infer.Room.{AllSized}
use kvc_pim.Layout.Infer.Restore.{AllPositive, recursive_infer-vars}
use kvc_pim.Layout.Hierarchy.Columns.{cols_per_bank_lem}
use kvc_pim.Layout.Infer.Bounded.{Covered, covered, all_covered, sizes, conv_element-Within}

abbrev level : String → Tag → Level
level name tag = record { loop = name; ptag = tag; dim = 2 }

abbrev nest : List Level
nest = level "K" parallel ∷ level "C" sequential ∷ level "P" parallel ∷ []

abbrev split_nest : SpatialHierarchy
split_nest = record {
  spatial_banks = 2;
  sequential_steps = 2;
  spatial_cols = 2;
  row_temporal_level = 1;
  row_spatial_level = 2;
}

legal : get_spatial_hierarchy nest ≡ some split_nest
unfolding get_spatial_hierarchy
legal = refl

nest-NonZero : NonZero nest
nest-NonZero zero h = omega arith
nest-NonZero (suc zero) h = omega arith
nest-NonZero (suc (suc zero)) h = omega arith
nest-NonZero (suc (suc (suc i))) h = absurd (omega arith)

abbrev steps : ConvSteps
steps = record { w_dilation = 1; h_dilation = 1; w_stride = 1; h_stride = 1 }

abbrev plan : Plan
plan = record {
  levels = nest;
  projections =
      conv_projection steps inputs
      ∷ conv_projection steps filters
      ∷ conv_projection steps outputs
      ∷ [];
  coeffs = [];
  dim_names = conv_dim_names;
  single_bank_opt = false;
  spatial_cols = 2;
}

IsHierarchy-example : IsHierarchy nest split_nest
IsHierarchy-example = get_spatial_hierarchy-IsHierarchy nest split_nest legal

two_pos : 0 < 2
two_pos = omega arith

one_lt_two : 1 < 2
one_lt_two = omega arith

cols_example : cols_per_bank nest split_nest ≡ 2
cols_example = cols_per_bank_lem nest split_nest legal two_pos two_pos

IsTimestep-example : IsTimestep nest split_nest 1 (setup_timestep nest split_nest 1)
IsTimestep-example = setup_timestep-IsTimestep nest split_nest 1 legal nest-NonZero one_lt_two

abbrev search : Search
search = record { vars = first_vars plan; pim_tensors = replicate 3 (replicate 4 []) }

nest-AllPositive : AllPositive nest
nest-AllPositive = (two_pos, (two_pos, (two_pos, tt)))

restored_example :
    (recursive_infer plan 4 (sizes plan) nest (setup_timestep nest split_nest 1) search).vars
    ≡ search.vars
restored_example =
    recursive_infer-vars plan 4 (sizes plan) nest (setup_timestep nest split_nest 1) search
      nest-AllPositive

three_lt_four : 3 < 2 * 2
three_lt_four = omega arith

element_example :
    cell (infer_pim_tensors plan split_nest 1) 2 3
    ≡ pushed (kept plan 3) (element_at plan split_nest 1 3) (conv_projection steps outputs)
element_example =
    infer_pim_tensors-element plan split_nest 1 2 3 (conv_projection steps outputs) legal
      nest-NonZero one_lt_two refl three_lt_four

sized : AllSized (sizes plan) nest
unfolding dim_sizes one_each mul_at
sized = (two_pos, (two_pos, (two_pos, tt)))

one_pos : 0 < 1
one_pos = omega arith

one_le : 1 ≤ 1
one_le = omega arith

two_le : 2 ≤ 2
two_le = omega arith

two_le_five : 2 ≤ 5
two_le_five = omega arith

-- The problem has five output channels, of which the loops take two.
in_problem : Covered (sizes plan) conv_dim_names (1 ∷ 5 ∷ 2 ∷ 1 ∷ 2 ∷ 1 ∷ 1 ∷ [])
unfolding dim_sizes one_each mul_at
in_problem = covered "N" _ 1 _ one_pos one_le (
    covered "K" _ 5 _ two_pos two_le_five (
      covered "P" _ 2 _ two_pos two_le (
        covered "Q" _ 1 _ one_pos one_le (
          covered "C" _ 2 _ two_pos two_le (
            covered "R" _ 1 _ one_pos one_le
              (covered "S" _ 1 _ one_pos one_le (all_covered [])))))))

Within-example :
    Within
      (calc_data_space
        (bound_loop conv_dim_names (1 ∷ 5 ∷ 2 ∷ 1 ∷ 2 ∷ 1 ∷ 1 ∷ []))
        (conv_projection steps inputs))
      (calc_data_space (element_at plan split_nest 1 3) (conv_projection steps inputs))
Within-example =
    conv_element-Within plan split_nest steps inputs 1 3 1 5 2 1 2 1 1 legal nest-NonZero refl sized
      one_lt_two three_lt_four in_problem one_pos one_pos

abbrev small_bound : DataSpaceIdx
small_bound = record { batch = 2; channel = 2; height = 2; width = 2 }

abbrev small_bounds : List DataSpaceIdx
small_bounds = small_bound ∷ small_bound ∷ small_bound ∷ []

-- The second hash of the inputs in bank 0 at time step 0.
abbrev second_hash : ℕ
second_hash = 2

found :
    lookup second_hash (table_at (tables_after plan split_nest small_bounds (0 ∷ [])) 0 0).entries
    ≡ some 1
unfolding tables_after calc_data_space conv_projection
found = refl

numbered_example :
    (second_hash ≡ second_hash)
    × (1 < (table_at (tables_after plan split_nest small_bounds (0 ∷ [])) 0 0).count)
numbered_example =
    tables_after-lookup_injective plan split_nest small_bounds (0 ∷ []) 0 0 second_hash second_hash
      1 found found
