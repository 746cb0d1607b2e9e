-- ===== src/Layout/Infer.antt =====
-- `recursive_infer` and `infer_layout` of simulator/src/pim_codegen/layout.h: the search through the
-- loop nest of one time step, with the variables that it changes and restores.
pub mod Restore
pub mod Element
pub mod Filled
pub mod Loop
pub mod Opened
pub mod Levels
pub mod Whole
pub mod Timed
pub mod Room
pub mod Bounded
use kvc_pim.Base.{
  ℕ, get_or, if◌then◌else◌, is_empty, leb, set, ◌==◌, zero, suc, ◌+◌, ◌-◌, ◌*◌, ◌/◌, Bool, false,
  not, ◌&&◌, Option, none, some, List, [], ◌∷◌, ◌++◌, length, replicate,
}
use Prim.Native.String.{String}
use text.Mathlib.Text.{◌==◌ as str_eq}
use kvc_pim.DataSpace.{Projection, DataSpaceIdx, LoopState, calc_data_space}
use kvc_pim.Layout.{Level, is_parallel, setup_timestep, spatial_elems, SpatialHierarchy}

-- What the search reads. `coeffs` is `m_coeffs`, and `dim_names` are `m_dim_names`.
pub record Plan : Type 0 where
  pub levels : List Level
  pub projections : List Projection
  pub coeffs : List (String × List ℕ)
  pub dim_names : List String
  pub single_bank_opt : Bool
  pub spatial_cols : ℕ

-- `m_coeffs[cur_dim]`; a loop without coefficients reads as none.
abbrev pub coeffs_of : List (String × List ℕ) → String → List ℕ
coeffs_of [] name = []
coeffs_of ((key, row) ∷ coeffs) name = if str_eq key name then row else coeffs_of coeffs name

-- `state[name] += n`, `-=`, `*=` and `/=`.
unfoldable pub add_at : String → ℕ → LoopState → LoopState
add_at name n state other = if str_eq name other then state other + n else state other

unfoldable pub sub_at : String → ℕ → LoopState → LoopState
sub_at name n state other = if str_eq name other then state other - n else state other

unfoldable pub mul_at : String → ℕ → LoopState → LoopState
mul_at name n state other = if str_eq name other then state other * n else state other

unfoldable pub div_at : String → ℕ → LoopState → LoopState
div_at name n state other = if str_eq name other then state other / n else state other

-- The variables of the search that are restored.
pub record Vars : Type 0 where
  pub spatial_id : ℕ
  pub base_spatial : ℕ
  pub loop_state : LoopState
  pub loop_base : LoopState
  pub dim_cur_level : LoopState

-- `m_pim_tensors`: for each tensor and each spatial element, the data spaces of its steps.
abbrev pub PimTensors : Type 0
PimTensors = List (List (List DataSpaceIdx))

pub record Search : Type 0 where
  pub vars : Vars
  pub pim_tensors : PimTensors

-- The data spaces of all tensors at one point of the nest, each pushed to its spatial element.
unfoldable pub push_data_spaces : LoopState → ℕ → List Projection → PimTensors → PimTensors
push_data_spaces loop_state spatial_id [] tensors = tensors
push_data_spaces loop_state spatial_id (p ∷ projections) [] = []
push_data_spaces loop_state spatial_id (p ∷ projections) (t ∷ tensors) =
    set t spatial_id (get_or t spatial_id [] ++ (calc_data_space loop_state p ∷ []))
    ∷ push_data_spaces loop_state spatial_id projections tensors

-- The product of the coefficients from the index `i` on, for `rounds` of them.
unfoldable pub coeff_product : List ℕ → ℕ → ℕ → ℕ
coeff_product row i zero = 1
coeff_product row i (suc rounds) = get_or row i 0 * coeff_product row (i + 1) rounds

-- The variables around the call for the index `idx` of a level; `elems` and `loop` are
-- `remaining_elems` and `remaining_loop`.
unfoldable pub enter : String → ℕ → ℕ → ℕ → Vars → Vars
unfolding add_at
enter name elems loop idx v = record v {
  spatial_id = v.spatial_id + idx * elems;
  dim_cur_level = add_at name 1 v.dim_cur_level;
  loop_state = add_at name (idx * loop) v.loop_state;
}

unfoldable pub leave : String → ℕ → ℕ → ℕ → Vars → Vars
unfolding sub_at
leave name elems loop idx v = record v {
  dim_cur_level = sub_at name 1 v.dim_cur_level;
  loop_state = sub_at name (idx * loop) v.loop_state;
  spatial_id = v.spatial_id - idx * elems;
}

-- `timestep_index[level] != -1 && idx != timestep_index[level]`
abbrev pub skips : Option ℕ → ℕ → Bool
skips none idx = false
skips (some fixed) idx = not (idx == fixed)

-- The loop over the indices of a level from `idx` on, around the call `infer` for the next level.
unfoldable pub each_index : (Search → Search) → String → Option ℕ → ℕ → ℕ → ℕ → ℕ → Search → Search
unfolding enter leave
each_index infer name fixed elems loop zero idx s = s
each_index infer name fixed elems loop (suc rounds) idx s =
    let inner = infer (record s { vars = enter name elems loop idx s.vars }) in
    each_index infer name fixed elems loop rounds (idx + 1)
      (if skips fixed idx then s else record inner { vars = leave name elems loop idx inner.vars })

abbrev pub tail_index : List (Option ℕ) → List (Option ℕ)
tail_index [] = []
tail_index (fixed ∷ index) = index

-- The test that leaves the search after the first bank.
unfoldable pub leaves_bank : Plan → Vars → Bool
leaves_bank plan v = plan.single_bank_opt && leb plan.spatial_cols v.spatial_id

-- `loop_base` and `base_spatial` on the way into a level, and on the way out.
unfoldable pub open_level : Level → Vars → Vars
unfolding mul_at
open_level l v = record v {
  loop_base = mul_at l.loop l.dim v.loop_base;
  base_spatial = if is_parallel l.ptag then v.base_spatial * l.dim else v.base_spatial;
}

unfoldable pub close_level : Level → Vars → Vars
unfolding div_at
close_level l v = record v {
  loop_base = div_at l.loop l.dim v.loop_base;
  base_spatial = if is_parallel l.ptag then v.base_spatial / l.dim else v.base_spatial;
}

unfoldable pub remaining_loop : Plan → LoopState → Level → Vars → ℕ
unfolding coeff_product
remaining_loop plan dim_size l v =
    if is_empty plan.coeffs
    then dim_size l.loop / v.loop_base l.loop
    else coeff_product (coeffs_of plan.coeffs l.loop) (v.dim_cur_level l.loop + 1)
        (2 - v.dim_cur_level l.loop)

unfoldable pub remaining_elems : ℕ → Level → Vars → ℕ
remaining_elems n_spatial_elems l v =
    if is_parallel l.ptag then n_spatial_elems / v.base_spatial else 0

module _ (plan : Plan) (n_spatial_elems : ℕ) (dim_size : LoopState) where
  unfoldable pub recursive_infer : List Level → List (Option ℕ) → Search → Search
  unfolding leaves_bank push_data_spaces each_index open_level close_level remaining_loop
      remaining_elems
  recursive_infer [] index s = if leaves_bank plan s.vars then s else record s {
    pim_tensors =
        push_data_spaces s.vars.loop_state s.vars.spatial_id plan.projections s.pim_tensors;
  }
  recursive_infer (l ∷ levels) index s =
      let infer : Search → Search = recursive_infer levels (tail_index index) in
      let opened = open_level l s.vars in
      let searched =
        each_index infer l.loop (get_or index 0 none) (remaining_elems n_spatial_elems l opened)
          (remaining_loop plan dim_size l opened) l.dim 0 (record s { vars = opened }) in
      if leaves_bank plan s.vars then s else record searched { vars = close_level l searched.vars }

-- `dim_size` before the levels, and `loop_base`: 1 for each dimension name.
unfoldable pub one_each : List String → LoopState
one_each [] other = 0
one_each (name ∷ names) other = if str_eq name other then 1 else one_each names other

-- `dim_size[m_loops[i]] *= m_dims[i]`, for each level.
unfoldable pub dim_sizes : List Level → LoopState → LoopState
unfolding mul_at
dim_sizes [] size = size
dim_sizes (l ∷ levels) size = dim_sizes levels (mul_at l.loop l.dim size)

-- The variables with which `infer_layout` starts the search.
unfoldable pub first_vars : Plan → Vars
unfolding one_each
first_vars plan = record {
  spatial_id = 0;
  base_spatial = 1;
  loop_state = λ name. 0;
  loop_base = one_each plan.dim_names;
  dim_cur_level = λ name. 0;
}

-- `m_pim_tensors` after the search of `infer_layout`.
unfoldable pub infer_pim_tensors : Plan → SpatialHierarchy → ℕ → PimTensors
unfolding recursive_infer first_vars dim_sizes setup_timestep spatial_elems one_each
infer_pim_tensors plan h timestep =
    let n : ℕ = spatial_elems 1 plan.levels in
    (recursive_infer plan n (dim_sizes plan.levels (one_each plan.dim_names)) plan.levels
      (setup_timestep plan.levels h timestep)
      (record {
        vars = first_vars plan;
        pim_tensors = replicate (length plan.projections) (replicate n []);
      })).pim_tensors
