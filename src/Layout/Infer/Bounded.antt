-- ===== src/Layout/Infer/Bounded.antt =====
-- Without mapping coefficients the loop indices of an element in simulator/src/pim_codegen/layout.h
-- stay below the sizes of the dimensions, which are the products of the loops over them.
use kvc_pim.Base.{ℕ, is_empty, ◌*◌, ◌≤◌, ◌<◌, List, [], ◌∷◌, ◌≡◌, true, some, arith}
use Prim.Native.String.{String}
use kvc_pim.Layout.{SpatialHierarchy, get_spatial_hierarchy, spatial_elems, setup_timestep}
use kvc_pim.Layout.Hierarchy.{get_spatial_hierarchy-IsHierarchy}
use kvc_pim.DataSpace.Kernels.{
  conv_projection, conv-Within, Runs, ConvSteps, Tensor, bound_loop, conv_dim_names,
}
use kvc_pim.Layout.Infer.{Plan, dim_sizes, one_each, first_vars}
use kvc_pim.DataSpace.{LoopState, calc_data_space}
use kvc_pim.Layout.Infer.Element.{width}
use kvc_pim.Layout.Infer.Timed.{NonZero, element_at, spatial_elems-width, setup_timestep-Indexed}
use kvc_pim.DataSpace.Hash.{Within}
use kvc_pim.Layout.Hierarchy.Columns.{spatial_elems_lem}
use kvc_pim.Layout.Infer.Room.{AllSized, element-HasRoom, first_vars-HasRoom}

-- The size of each dimension of the plan.
abbrev pub sizes : Plan → LoopState
sizes plan = dim_sizes plan.levels (one_each plan.dim_names)

-- In a layout that the constructor accepts, whose dimensions are not 0, with no mapping coefficients,
-- whose loops are all over dimensions of the kernel: the loop indices of every spatial element at a time
-- step below the number of sequential steps are each below the product of the loops over that
-- dimension.
pub element_at-lt :
    (plan : Plan) (h : SpatialHierarchy) (t sid : ℕ) (name : String)
    → get_spatial_hierarchy plan.levels ≡ some h
    → NonZero plan.levels
    → is_empty plan.coeffs ≡ true
    → AllSized (sizes plan) plan.levels
    → t < h.sequential_steps
    → sid < h.spatial_banks * h.spatial_cols
    → 0 < sizes plan name
    → element_at plan h t sid name < sizes plan name
element_at-lt plan h t sid name e dims_pos c a lt l s =
    let n_eq : spatial_elems 1 plan.levels ≡ 1 * width plan.levels =
      spatial_elems-width 1 plan.levels in
    let n_banks =
      spatial_elems_lem plan.levels h (get_spatial_hierarchy-IsHierarchy plan.levels h e) in
    element-HasRoom plan (spatial_elems 1 plan.levels) (sizes plan) plan.levels
      (setup_timestep plan.levels h t) sid (first_vars plan) c
      (setup_timestep-Indexed plan.levels h t e dims_pos lt) a (omega arith)
      (first_vars-HasRoom plan) name s

-- Each dimension is of positive size, and its loops make at most the size that the problem has.
pub data Covered (size : String → ℕ) : List String → List ℕ → Type 0 where
  all_covered : (dims : List ℕ) → Covered size [] dims
  covered :
      (name : String) (names : List String) (dim : ℕ) (dims : List ℕ)
      → 0 < size name
      → size name ≤ dim
      → Covered size names dims
      → Covered size (name ∷ names) (dim ∷ dims)

Runs-Covered :
    (size index : LoopState) (names : List String) (dims : List ℕ)
    → Covered size names dims
    → ((name : String) → 0 < size name → index name < size name)
    → Runs index names dims
Runs-Covered size index _ dims (all_covered _) h = tt
Runs-Covered size index _ _ (covered name names dim dims p l c) h =
    (omega (arith, h name p, l), Runs-Covered size index names dims c h)

-- In a layout of a convolution that the constructor accepts, with no mapping coefficients, whose loops
-- are all over dimensions of the kernel, of positive sizes and together at most the dimensions of the
-- problem, and whose dilations are positive: the data space of every tensor at every spatial element and
-- time step lies within the bounds that the constructor computes from the dimensions of the problem.
pub conv_element-Within :
    (plan : Plan) (h : SpatialHierarchy) (c : ConvSteps) (tensor : Tensor) (t sid : ℕ)
    (n k p q ch r s : ℕ)
    → get_spatial_hierarchy plan.levels ≡ some h
    → NonZero plan.levels
    → is_empty plan.coeffs ≡ true
    → AllSized (sizes plan) plan.levels
    → t < h.sequential_steps
    → sid < h.spatial_banks * h.spatial_cols
    → Covered (sizes plan) conv_dim_names (n ∷ k ∷ p ∷ q ∷ ch ∷ r ∷ s ∷ [])
    → 0 < c.w_dilation
    → 0 < c.h_dilation
    → Within
        (calc_data_space
          (bound_loop conv_dim_names (n ∷ k ∷ p ∷ q ∷ ch ∷ r ∷ s ∷ []))
          (conv_projection c tensor))
        (calc_data_space (element_at plan h t sid) (conv_projection c tensor))
conv_element-Within plan h c tensor t sid n k p q ch r s e dims_pos none_mapped a lt l in_problem wd
      hd =
    conv-Within c tensor n k p q ch r s (element_at plan h t sid) wd hd (
      Runs-Covered (sizes plan) (element_at plan h t sid) conv_dim_names _ in_problem
        (λ name. element_at-lt plan h t sid name e dims_pos none_mapped a lt l))
