-- ===== src/DataSpace.antt =====
-- simulator/src/pim_codegen/data_space.h: the four-dimensional index of a tensor element, and its
-- number in row-major order. The source computes in `int`; `DataSpace.Hash` bounds the values.
pub mod Hash
pub mod Kernels
use kvc_pim.Base.{ℕ, ◌==◌, ◌+◌, ◌*◌, ◌/◌, ◌%◌, Bool, ◌&&◌, List, [], ◌∷◌}
use Prim.Native.String.{String}

pub record DataSpaceIdx : Type 0 where
  pub batch : ℕ
  pub channel : ℕ
  pub height : ℕ
  pub width : ℕ

-- One list of loop names and coefficients for each of the four dimensions.
pub record Projection : Type 0 where
  pub batch_terms : List (String × ℕ)
  pub channel_terms : List (String × ℕ)
  pub height_terms : List (String × ℕ)
  pub width_terms : List (String × ℕ)

-- `loop_state_type`; a loop that is not in the map reads as 0.
abbrev pub LoopState : Type 0
LoopState = String → ℕ

unfoldable pub calc_proj_id : LoopState → List (String × ℕ) → ℕ
calc_proj_id loop_state [] = 0
calc_proj_id loop_state ((name, coefficient) ∷ terms) =
    loop_state name * coefficient + calc_proj_id loop_state terms

unfoldable pub calc_data_space : LoopState → Projection → DataSpaceIdx
unfolding calc_proj_id
calc_data_space loop_state projection = record {
  batch = calc_proj_id loop_state projection.batch_terms;
  channel = calc_proj_id loop_state projection.channel_terms;
  height = calc_proj_id loop_state projection.height_terms;
  width = calc_proj_id loop_state projection.width_terms;
}

unfoldable pub data_space_from_hash : ℕ → DataSpaceIdx → DataSpaceIdx
data_space_from_hash hash bounds = record {
  width = hash % bounds.width;
  height = hash / bounds.width % bounds.height;
  channel = hash / bounds.width / bounds.height % bounds.channel;
  batch = hash / bounds.width / bounds.height / bounds.channel;
}

-- `get_hash`, which the source computes in `int`: its values are these where they stay below 2 ^ 31.
unfoldable pub get_hash : DataSpaceIdx → DataSpaceIdx → ℕ
get_hash idx bounds =
    ((idx.batch * bounds.channel + idx.channel) * bounds.height + idx.height) * bounds.width
    + idx.width

-- `operator==`
unfoldable pub same_idx : DataSpaceIdx → DataSpaceIdx → Bool
same_idx a b =
    a.batch == b.batch && a.channel == b.channel && a.height == b.height && a.width == b.width
