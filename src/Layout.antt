-- ===== src/Layout.antt =====
-- The class `Layout` of simulator/src/pim_codegen/layout.h: its loop nest, the split of the nest into
-- banks, sequential steps and columns, and the indices that a time step fixes.
pub mod Hierarchy
pub mod Timestep
pub mod Infer
pub mod Numbering
use kvc_pim.Base.{
  ℕ, get_or, if◌then◌else◌, length, ltb, replicate, set, zero, suc, ◌+◌, ◌-◌, ◌*◌, ◌/◌, ◌%◌, Bool,
  true, false, Option, none, some, List, [], ◌∷◌, map,
}
use Prim.Native.String.{String}

-- `m_ptags`: the letter P is a parallel loop, and every other letter a sequential one.
pub data Tag : Type 0 where
  parallel sequential : Tag

-- One entry of each of `m_loops`, `m_ptags` and `m_dims`.
pub record Level : Type 0 where
  pub loop : String
  pub ptag : Tag
  pub dim : ℕ

abbrev pub is_parallel : Tag → Bool
is_parallel parallel = true
is_parallel sequential = false

-- What the two functions return and where they leave the index `i`, with the levels from `i` on.
pub record Advance : Type 0 where
  pub product : ℕ
  pub index : ℕ
  pub rest : List Level

unfoldable pub skip_sequential : ℕ → ℕ → List Level → Advance
skip_sequential n i [] = record { product = n; index = i; rest = [] }
skip_sequential n i (l ∷ levels) =
    let skipped = skip_sequential (n * l.dim) (i + 1) levels in
    if is_parallel l.ptag then record { product = n; index = i; rest = l ∷ levels } else skipped

unfoldable pub get_advance_spatial : ℕ → ℕ → List Level → Advance
get_advance_spatial n i [] = record { product = n; index = i; rest = [] }
get_advance_spatial n i (l ∷ levels) =
    let advanced = get_advance_spatial (n * l.dim) (i + 1) levels in
    if is_parallel l.ptag then advanced else record { product = n; index = i; rest = l ∷ levels }

pub record SpatialHierarchy : Type 0 where
  pub spatial_banks : ℕ
  pub sequential_steps : ℕ
  pub spatial_cols : ℕ
  pub row_temporal_level : ℕ
  pub row_spatial_level : ℕ

-- `get_spatial_hierarchy`; `none` is the illegal layout, for which the constructor throws.
unfoldable pub get_spatial_hierarchy : List Level → Option SpatialHierarchy
unfolding get_advance_spatial skip_sequential
get_spatial_hierarchy levels =
    let banks = get_advance_spatial 1 0 levels in
    let steps = skip_sequential 1 banks.index banks.rest in
    let cols = get_advance_spatial 1 steps.index steps.rest in
    if ltb cols.index (length levels)
    then none
    else some record {
      spatial_banks = banks.product;
      sequential_steps = steps.product;
      spatial_cols = cols.product;
      row_temporal_level = banks.index;
      row_spatial_level = steps.index;
    }

-- `n_spatial_elems` from `n` on, as `infer_layout` computes it over the levels.
unfoldable pub spatial_elems : ℕ → List Level → ℕ
spatial_elems n [] = n
spatial_elems n (l ∷ levels) = spatial_elems (if is_parallel l.ptag then n * l.dim else n) levels

-- `cols_per_bank` in `infer_layout`.
unfoldable pub cols_per_bank : List Level → SpatialHierarchy → ℕ
unfolding spatial_elems
cols_per_bank levels h = (spatial_elems 1 levels - 1) / h.spatial_banks + 1

-- `timestep_index`, with `none` for -1.
-- The loop from `row_spatial_level - 1` down to `row_temporal_level`, over `rounds` levels.
unfoldable pub set_timestep_levels : List ℕ → ℕ → ℕ → ℕ → List (Option ℕ) → List (Option ℕ)
set_timestep_levels dims temporal zero timestep index = index
set_timestep_levels dims temporal (suc rounds) timestep index =
    let dim = get_or dims (temporal + rounds) 0 in
    set_timestep_levels dims temporal rounds (timestep / dim)
      (set index (temporal + rounds) (some (timestep % dim)))

unfoldable pub setup_timestep : List Level → SpatialHierarchy → ℕ → List (Option ℕ)
unfolding set_timestep_levels
setup_timestep levels h timestep =
    set_timestep_levels (map (λ l. l.dim) levels) h.row_temporal_level
      (h.row_spatial_level - h.row_temporal_level) timestep (replicate (length levels) none)
