-- ===== src/Layout/Timestep/Legal.antt =====
-- The indices of a time step in a loop nest that `get_spatial_hierarchy` of
-- simulator/src/pim_codegen/layout.h accepts.
use kvc_pim.Base.{
  ℕ, get_or, length, zero, suc, ◌+◌, ◌*◌, ◌≤◌, ◌<◌, ◌≡◌, refl, ◌∙◌, Option, none, some, List, arith,
  ap, length-append, ◌-◌, sym, ◌⊎◌, ◌++◌, map, get_or-replicate, length-replicate, replicate, inl,
  inr, [], ◌∷◌,
}
use native.Mathlib.Nat.{mul_assoc}
use kvc_pim.Layout.{
  Level, set_timestep_levels, SpatialHierarchy, setup_timestep, get_spatial_hierarchy,
}
use kvc_pim.Layout.Hierarchy.{get_spatial_hierarchy-IsHierarchy, dim_product, IsHierarchy}
use kvc_pim.Layout.Timestep.{
  steps_of, timestep_of, length-set_timestep_levels, set_timestep_levels-above,
  set_timestep_levels-below, timestep_of-set_timestep_levels, set_timestep_levels-digit,
}

abbrev pub dims_of : List Level → List ℕ
dims_of levels = map (λ l. l.dim) levels

-- The indices of a time step: -1 outside the sequential levels, an index below the dimension at each
-- of them, and together the time step itself.
pub record IsTimestep (levels : List Level) (h : SpatialHierarchy) (t : ℕ) (index : List (Option ℕ))
    : Type 0 where
  pub one_each : length index ≡ length levels
  pub outside :
      (level : ℕ)
      → (level < h.row_temporal_level) ⊎ (h.row_spatial_level ≤ level)
      → get_or index level none ≡ none
  pub inside :
      (level : ℕ)
      → h.row_temporal_level ≤ level
      → level < h.row_spatial_level
      → (digit : ℕ) × (get_or index level none ≡ some digit)
        × (digit < get_or (dims_of levels) level 0)
  pub value :
      timestep_of
        (dims_of levels)
        h.row_temporal_level
        (h.row_spatial_level - h.row_temporal_level)
        index
      ≡ t

steps_of-suc :
    (d : ℕ) (dims : List ℕ) (temporal rounds : ℕ)
    → steps_of (d ∷ dims) (suc temporal) rounds ≡ steps_of dims temporal rounds
steps_of-suc d dims temporal zero = refl
steps_of-suc d dims temporal (suc rounds) =
    ap (λ n. n * get_or (d ∷ dims) (suc temporal + rounds) 0) (steps_of-suc d dims temporal rounds)
    ∙ ap (λ k. steps_of dims temporal rounds * get_or (d ∷ dims) k 0) {y = suc (temporal + rounds)}
        (omega arith)

steps_of-cons :
    (d : ℕ) (dims : List ℕ) (rounds : ℕ)
    → steps_of (d ∷ dims) 0 (suc rounds) ≡ d * steps_of dims 0 rounds
steps_of-cons d dims zero = omega arith
steps_of-cons d dims (suc rounds) =
    ap (λ n. n * get_or (d ∷ dims) (0 + suc rounds) 0) (steps_of-cons d dims rounds)
    ∙ mul_assoc d (steps_of dims 0 rounds) (get_or (d ∷ dims) (0 + suc rounds) 0)
    ∙ ap (λ k. d * (steps_of dims 0 rounds * get_or (d ∷ dims) k 0)) {y = suc (0 + rounds)}
        (omega arith)

steps_of-append :
    (banks steps cols : List Level)
    → steps_of (dims_of (banks ++ (steps ++ cols))) (length banks) (length steps)
      ≡ dim_product steps
steps_of-append [] [] cols = refl
steps_of-append [] (l ∷ steps) cols =
    steps_of-cons l.dim (dims_of (steps ++ cols)) (length steps)
    ∙ ap (λ n. l.dim * n) (steps_of-append [] steps cols)
steps_of-append (l ∷ banks) steps cols =
    steps_of-suc l.dim (dims_of (banks ++ (steps ++ cols))) (length banks) (length steps)
    ∙ steps_of-append banks steps cols

steps_of-IsHierarchy :
    (levels : List Level) (h : SpatialHierarchy)
    → IsHierarchy levels h
    → steps_of (dims_of levels) h.row_temporal_level (h.row_spatial_level - h.row_temporal_level)
      ≡ h.sequential_steps
steps_of-IsHierarchy levels h i =
    ap
      (λ ls.
        steps_of (dims_of ls) h.row_temporal_level (h.row_spatial_level - h.row_temporal_level))
      i.joined
    ∙ ap
        (λ n.
          steps_of (dims_of (i.banks ++ (i.steps ++ i.cols))) n
            (h.row_spatial_level - h.row_temporal_level))
        i.temporal_level
    ∙ ap (λ n. steps_of (dims_of (i.banks ++ (i.steps ++ i.cols))) (length i.banks) n)
        {y = length i.steps} (omega (arith, i.temporal_level, i.spatial_level))
    ∙ steps_of-append i.banks i.steps i.cols
    ∙ sym i.steps_size

unset :
    (levels : List Level) (h : SpatialHierarchy) (rounds t level : ℕ)
    → (level < h.row_temporal_level) ⊎ (h.row_spatial_level ≤ level)
    → h.row_temporal_level + rounds ≤ h.row_spatial_level
    → get_or
        (set_timestep_levels
          (dims_of levels)
          h.row_temporal_level
          rounds
          t
          (replicate (length levels) none))
        level
        none
      ≡ none
unset levels h rounds t level (inl b) le =
    set_timestep_levels-below (dims_of levels) h.row_temporal_level rounds t level _ b
    ∙ get_or-replicate {A = Option ℕ} (length levels) level none
unset levels h rounds t level (inr a) le =
    set_timestep_levels-above (dims_of levels) h.row_temporal_level rounds t level _ (omega arith)
    ∙ get_or-replicate {A = Option ℕ} (length levels) level none

-- Where the constructor accepts the layout and no dimension is 0, the indices that are set for a time
-- step below the number of sequential steps are the digits of the time step, each below the dimension
-- of its level, and every other level holds -1.
pub setup_timestep-IsTimestep :
    (levels : List Level) (h : SpatialHierarchy) (t : ℕ)
    → get_spatial_hierarchy levels ≡ some h
    → ((i : ℕ) → i < length levels → 0 < get_or (dims_of levels) i 0)
    → t < h.sequential_steps
    → IsTimestep levels h t (setup_timestep levels h t)
unfolding setup_timestep
setup_timestep-IsTimestep levels h t e dims_pos lt =
    let i : IsHierarchy levels h = get_spatial_hierarchy-IsHierarchy levels h e in
    let rounds : ℕ = h.row_spatial_level - h.row_temporal_level in
    let start : List (Option ℕ) = replicate (length levels) none in
    let len : length levels ≡ length i.banks + (length i.steps + length i.cols) =
      ap length i.joined
      ∙ length-append i.banks (i.steps ++ i.cols)
      ∙ ap (λ n. length i.banks + n) (length-append i.steps i.cols) in
    let temporal_level = i.temporal_level in
    let spatial_level = i.spatial_level in
    let start_len : length start ≡ length levels = length-replicate (length levels) none in
    record {
      one_each =
          length-set_timestep_levels (dims_of levels) h.row_temporal_level rounds t start
          ∙ start_len;
      outside = λ level out. unset levels h rounds t level out (omega arith);
      inside = λ level le l.
          set_timestep_levels-digit (dims_of levels) h.row_temporal_level rounds t level start le
            (omega arith) (omega arith) (dims_pos level (omega arith));
      value =
          timestep_of-set_timestep_levels (dims_of levels) h.row_temporal_level rounds t start
            (omega arith) (λ j l. dims_pos (h.row_temporal_level + j) (omega arith))
            (omega (arith, steps_of-IsHierarchy levels h i));
    }
