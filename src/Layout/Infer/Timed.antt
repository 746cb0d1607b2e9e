-- ===== src/Layout/Infer/Timed.antt =====
-- The data layout of one time step (`infer_layout` of simulator/src/pim_codegen/layout.h): the indices
-- of the time step suit the loop nest, and every spatial element gets one data space of each tensor.
use kvc_pim.Base.{
  ℕ, get_elem?, get_or, if◌then◌else◌, length, length-replicate, replicate, zero, suc, ◌-◌, ◌*◌,
  ◌≤◌, ◌<◌, ◌≡◌, refl, sym, ap, subst, ◌∙◌, ◌⊎◌, inl, inr, Option, none, some, List, [], ◌∷◌, ◌++◌,
  arith, Bool, true, false, none≢some, get_or-replicate, get_elem?-append_left,
  get_elem?-append_right,
}
use native.Mathlib.Nat.{mul_assoc}
use mathlib.Core.Path.{ap₂}
use native.Mathlib.Decide.{dec_lt}
use kvc_pim.Layout.{
  Level, parallel, Tag, SpatialHierarchy, spatial_elems, sequential, get_spatial_hierarchy,
  setup_timestep, is_parallel,
}
use kvc_pim.DataSpace.{Projection, DataSpaceIdx, LoopState}
use kvc_pim.Layout.Infer.{Plan, infer_pim_tensors, first_vars, dim_sizes, one_each}
use kvc_pim.Layout.Infer.Element.{Indexed, Shaped, width, element, cell, pushed, kept, hit}
use kvc_pim.Layout.Timestep.Legal.{dims_of, IsTimestep, setup_timestep-IsTimestep}
use kvc_pim.Layout.Hierarchy.{AllTagged, IsHierarchy, get_spatial_hierarchy-IsHierarchy}
use kvc_pim.Layout.Hierarchy.Columns.{spatial_elems_lem}
use kvc_pim.Layout.Infer.Whole.{recursive_infer-Filled}

abbrev Fits : Option ℕ → Level → Type 0
Fits none l = (l.ptag ≡ parallel) × (0 < l.dim)
Fits (some fixed) l = (l.ptag ≡ sequential) × (fixed < l.dim)

Indexed-of_Fits :
    (levels : List Level) (index : List (Option ℕ))
    → length index ≡ length levels
    → ((i : ℕ) (l : Level) → get_elem? levels i ≡ some l → Fits (get_or index i none) l)
    → Indexed levels index
Indexed-of_Fits [] index e h = tt
Indexed-of_Fits (l ∷ levels) [] e h = absurd (omega arith)
Indexed-of_Fits (l ∷ levels) (none ∷ index) e h =
    ((h 0 l refl).0, (h 0 l refl).1, Indexed-of_Fits levels index (omega arith) (λ i. h (suc i)))
Indexed-of_Fits (l ∷ levels) (some fixed ∷ index) e h =
    ((h 0 l refl).0, (h 0 l refl).1, Indexed-of_Fits levels index (omega arith) (λ i. h (suc i)))

tag_at :
    (t : Tag) (levels : List Level) (i : ℕ) (l : Level)
    → AllTagged t levels
    → get_elem? levels i ≡ some l
    → l.ptag ≡ t
tag_at t [] i l h e = absurd (none≢some e)
tag_at t (m ∷ levels) zero l h e = ground arith
tag_at t (m ∷ levels) (suc i) l h e = tag_at t levels i l h.1 e

dim_at :
    (levels : List Level) (i : ℕ) (l : Level)
    → get_elem? levels i ≡ some l
    → get_or (dims_of levels) i 0 ≡ l.dim
dim_at [] i l e = absurd (none≢some e)
dim_at (m ∷ levels) zero l e = ground arith
dim_at (m ∷ levels) (suc i) l e = dim_at levels i l e

elem_in_range :
    (levels : List Level) (i : ℕ) (l : Level) → get_elem? levels i ≡ some l → i < length levels
elem_in_range [] i l e = absurd (none≢some e)
elem_in_range (m ∷ levels) zero l e = omega arith
elem_in_range (m ∷ levels) (suc i) l e = omega (arith, elem_in_range levels i l e)

-- The tags of a legal nest, by the position of the level.
tags_of_IsHierarchy :
    (levels : List Level) (h : SpatialHierarchy) (i : ℕ) (l : Level)
    → IsHierarchy levels h
    → get_elem? levels i ≡ some l
    → (((i < h.row_temporal_level) ⊎ (h.row_spatial_level ≤ i)) × (l.ptag ≡ parallel))
      ⊎ ((h.row_temporal_level ≤ i) × (i < h.row_spatial_level) × (l.ptag ≡ sequential))
tags_of_IsHierarchy levels h i l s e =
    let e' : get_elem? (s.banks ++ (s.steps ++ s.cols)) i ≡ some l =
      ap (λ ls. get_elem? ls i) (sym s.joined) ∙ e in
    let temporal = s.temporal_level in
    let spatial = s.spatial_level in
    elim (dec_lt i (length s.banks)) [
      | yes b ↦ inl (
        inl (omega arith),
        tag_at parallel s.banks i l s.banks_tagged
            (sym (get_elem?-append_left s.banks (s.steps ++ s.cols) i b) ∙ e'),
      )
      | no nb ↦
          let j : ℕ = i - length s.banks in
          let e'' : get_elem? (s.steps ++ s.cols) j ≡ some l =
            sym (get_elem?-append_right s.banks (s.steps ++ s.cols) i j (omega arith)) ∙ e' in
          elim (dec_lt j (length s.steps)) [
            | yes c ↦ inr (
              omega arith,
              omega arith,
              tag_at sequential s.steps j l s.steps_tagged
                  (sym (get_elem?-append_left s.steps s.cols j c) ∙ e''),
            )
            | no nc ↦ inl (
              inr (omega arith),
              tag_at parallel s.cols (j - length s.steps) l s.cols_tagged (
                  sym (get_elem?-append_right s.steps s.cols j (j - length s.steps) (omega arith))
                  ∙ e''),
            )
          ]
    ]

abbrev pub NonZero : List Level → Type 0
NonZero levels = (i : ℕ) → i < length levels → 0 < get_or (dims_of levels) i 0

-- The indices of a time step suit a legal nest.
pub setup_timestep-Indexed :
    (levels : List Level) (h : SpatialHierarchy) (t : ℕ)
    → get_spatial_hierarchy levels ≡ some h
    → NonZero levels
    → t < h.sequential_steps
    → Indexed levels (setup_timestep levels h t)
setup_timestep-Indexed levels h t e dims_pos lt =
    let step : IsTimestep levels h t (setup_timestep levels h t) =
      setup_timestep-IsTimestep levels h t e dims_pos lt in
    let s : IsHierarchy levels h = get_spatial_hierarchy-IsHierarchy levels h e in
    Indexed-of_Fits levels (setup_timestep levels h t) step.one_each λ i l q.
      let dim : get_or (dims_of levels) i 0 ≡ l.dim = dim_at levels i l q in
      elim (tags_of_IsHierarchy levels h i l s q) [
        | inl p ↦
            subst (λ o. Fits o l) (sym (step.outside i p.0))
              (p.1, subst (λ d. 0 < d) dim (dims_pos i (elem_in_range levels i l q)))
        | inr p ↦
            let d = step.inside i p.0 p.1 in
            subst (λ o. Fits o l) (sym d.1) (p.2, subst (λ m. d.0 < m) dim d.2)
      ]

Shaped-replicate :
    (n : ℕ) (projections : List Projection)
    → Shaped n projections (replicate (length projections) (replicate n []))
Shaped-replicate n [] = tt
Shaped-replicate n (p ∷ projections) =
    (length-replicate {A = List DataSpaceIdx} n [], Shaped-replicate n projections)

width_step : (b : Bool) (n d w : ℕ) → (if b then n * d else n) * w ≡ n * (if b then d * w else w)
width_step true n d w = mul_assoc n d w
width_step false n d w = refl

pub spatial_elems-width : (n : ℕ) (levels : List Level) → spatial_elems n levels ≡ n * width levels
unfolding spatial_elems
spatial_elems-width n [] = omega arith
spatial_elems-width n (l ∷ levels) =
    spatial_elems-width (if is_parallel l.ptag then n * l.dim else n) levels
    ∙ width_step (is_parallel l.ptag) n l.dim (width levels)

cell-replicate : (k n i sid : ℕ) → cell (replicate k (replicate n [])) i sid ≡ []
cell-replicate zero n i sid = refl
cell-replicate (suc k) n zero sid = get_or-replicate {A = List DataSpaceIdx} n sid []
cell-replicate (suc k) n (suc i) sid = cell-replicate k n i sid

first_hit : (plan : Plan) (w sid : ℕ) → sid < w → hit plan 0 w sid ≡ kept plan sid
first_hit plan w sid h = ground arith

-- The loop indices of a spatial element at a time step.
abbrev pub element_at : Plan → SpatialHierarchy → ℕ → ℕ → LoopState
element_at plan h t sid =
    element plan (spatial_elems 1 plan.levels) (dim_sizes plan.levels (one_each plan.dim_names))
      plan.levels (setup_timestep plan.levels h t) sid (first_vars plan)

-- In a layout that the constructor accepts, whose dimensions are not 0, a search for a time step below
-- the number of sequential steps gives every spatial element, or with the single-bank option every one
-- of the first bank, exactly one data space of each tensor: the one at the loop indices that the digits
-- of the element's number and of the time step select. The others get none.
pub infer_pim_tensors-element :
    (plan : Plan) (h : SpatialHierarchy) (t i sid : ℕ) (p : Projection)
    → get_spatial_hierarchy plan.levels ≡ some h
    → NonZero plan.levels
    → t < h.sequential_steps
    → get_elem? plan.projections i ≡ some p
    → sid < h.spatial_banks * h.spatial_cols
    → cell (infer_pim_tensors plan h t) i sid ≡ pushed (kept plan sid) (element_at plan h t sid) p
unfolding infer_pim_tensors first_vars
infer_pim_tensors-element plan h t i sid p e dims_pos lt q l =
    let n : ℕ = spatial_elems 1 plan.levels in
    let n_eq : n ≡ 1 * width plan.levels = spatial_elems-width 1 plan.levels in
    let n_banks : n ≡ h.spatial_banks * h.spatial_cols =
      spatial_elems_lem plan.levels h (get_spatial_hierarchy-IsHierarchy plan.levels h e) in
    let filled =
      recursive_infer-Filled plan n (dim_sizes plan.levels (one_each plan.dim_names)) plan.levels
        (setup_timestep plan.levels h t) (first_vars plan)
        (replicate (length plan.projections) (replicate n []))
        (setup_timestep-Indexed plan.levels h t e dims_pos lt)
        (omega arith, n_eq, omega arith, Shaped-replicate n plan.projections) in
    let whole : sid - 0 ≡ sid = omega arith in
    filled.cells i sid p q (omega arith)
    ∙ ap (λ xs. xs ++ pushed (hit plan 0 (width plan.levels) sid) (element_at plan h t (sid - 0)) p)
        (cell-replicate (length plan.projections) n i sid)
    ∙ ap₂ (λ b k. pushed b (element_at plan h t k) p)
        (first_hit plan (width plan.levels) sid (omega arith)) whole
