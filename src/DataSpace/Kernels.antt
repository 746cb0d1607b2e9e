-- ===== src/DataSpace/Kernels.antt =====
-- The tensors of the two kernels of simulator/src/pim_codegen/layout.h (`ConvLayout`, `GemmLayout`):
-- their projections, and the bounds that are computed from the problem's dimensions.
use kvc_pim.Base.{ℕ, if◌then◌else◌, ◌+◌, ◌*◌, ◌<◌, List, [], ◌∷◌, arith}
use Prim.Native.String.{String}
use text.Mathlib.Text.{◌==◌ as str_eq}
use kvc_pim.DataSpace.{Projection, LoopState, calc_data_space}
use kvc_pim.DataSpace.Hash.{Within}

-- `bound_loop[m_dim_names(i)] = problem_dims[i]`, for each dimension.
unfoldable pub bound_loop : List String → List ℕ → LoopState
bound_loop [] dims name = 0
bound_loop (dim_name ∷ dim_names) [] name = 0
bound_loop (dim_name ∷ dim_names) (dim ∷ dims) name =
    if str_eq dim_name name then dim else bound_loop dim_names dims name

abbrev pub one_term : String → List (String × ℕ)
one_term name = (name, 1) ∷ []

abbrev pub conv_dim_names : List String
conv_dim_names = "N" ∷ "K" ∷ "P" ∷ "Q" ∷ "C" ∷ "R" ∷ "S" ∷ []

-- The parameters of a convolution beside its dimensions.
pub record ConvSteps : Type 0 where
  pub w_dilation : ℕ
  pub h_dilation : ℕ
  pub w_stride : ℕ
  pub h_stride : ℕ

pub data Tensor : Type 0 where
  inputs filters outputs : Tensor

unfoldable pub conv_projection : ConvSteps → Tensor → Projection
conv_projection c inputs = record {
  batch_terms = one_term "N";
  channel_terms = one_term "C";
  height_terms = ("R", c.w_dilation) ∷ ("P", c.w_stride) ∷ [];
  width_terms = ("S", c.h_dilation) ∷ ("Q", c.h_stride) ∷ [];
}
conv_projection c filters = record {
  batch_terms = one_term "C";
  channel_terms = one_term "K";
  height_terms = one_term "R";
  width_terms = one_term "S";
}
conv_projection c outputs = record {
  batch_terms = one_term "N";
  channel_terms = one_term "K";
  height_terms = one_term "P";
  width_terms = one_term "Q";
}

abbrev pub gemm_dim_names : List String
gemm_dim_names = "N" ∷ "H" ∷ "P" ∷ "Q" ∷ "R" ∷ []

-- `Inputs1`, `Inputs2` and `Outputs`, in that order.
unfoldable pub gemm_projection : Tensor → Projection
gemm_projection inputs = record {
  batch_terms = one_term "N";
  channel_terms = one_term "H";
  height_terms = one_term "P";
  width_terms = one_term "Q";
}
gemm_projection filters = record {
  batch_terms = one_term "N";
  channel_terms = one_term "H";
  height_terms = one_term "Q";
  width_terms = one_term "R";
}
gemm_projection outputs = record {
  batch_terms = one_term "N";
  channel_terms = one_term "H";
  height_terms = one_term "P";
  width_terms = one_term "R";
}

-- Each loop variable of the list runs below its dimension.
abbrev pub Runs : LoopState → List String → List ℕ → Type 0
Runs loop_state [] dims = Unit {0}
Runs loop_state (name ∷ names) [] = ⊥
Runs loop_state (name ∷ names) (dim ∷ dims) = (loop_state name < dim) × Runs loop_state names dims

window_bound : (r p R P d s : ℕ) → r < R → p < P → 0 < d → r * d + (p * s + 0) < R * d + (P * s + 0)
window_bound r p R P d s h k l = grind arith

-- In a convolution of positive dilations, at every point of the loop nest the element of each tensor
-- lies within the bounds that the constructor computes.
pub conv-Within :
    (c : ConvSteps) (t : Tensor) (n k p q ch r s : ℕ) (loop_state : LoopState)
    → 0 < c.w_dilation
    → 0 < c.h_dilation
    → Runs loop_state conv_dim_names (n ∷ k ∷ p ∷ q ∷ ch ∷ r ∷ s ∷ [])
    → Within
        (calc_data_space
          (bound_loop conv_dim_names (n ∷ k ∷ p ∷ q ∷ ch ∷ r ∷ s ∷ []))
          (conv_projection c t))
        (calc_data_space loop_state (conv_projection c t))
unfolding calc_data_space conv_projection bound_loop
conv-Within c inputs n k p q ch r s loop_state wd hd h = record {
  batch_in = omega arith;
  channel_in = omega arith;
  height_in =
      window_bound (loop_state "R") (loop_state "P") r p c.w_dilation c.w_stride (omega arith)
        (omega arith) wd;
  width_in =
      window_bound (loop_state "S") (loop_state "Q") s q c.h_dilation c.h_stride (omega arith)
        (omega arith) hd;
}
conv-Within c filters n k p q ch r s loop_state wd hd h = omega arith
conv-Within c outputs n k p q ch r s loop_state wd hd h = omega arith

-- In a matrix multiplication, at every point of the loop nest the element of each tensor lies within the
-- bounds that the constructor computes.
pub gemm-Within :
    (t : Tensor) (n hd p q r : ℕ) (loop_state : LoopState)
    → Runs loop_state gemm_dim_names (n ∷ hd ∷ p ∷ q ∷ r ∷ [])
    → Within
        (calc_data_space (bound_loop gemm_dim_names (n ∷ hd ∷ p ∷ q ∷ r ∷ [])) (gemm_projection t))
        (calc_data_space loop_state (gemm_projection t))
unfolding calc_data_space gemm_projection bound_loop
gemm-Within inputs n hd p q r loop_state h = omega arith
gemm-Within filters n hd p q r loop_state h = omega arith
gemm-Within outputs n hd p q r loop_state h = omega arith
