-- ===== src/Layout/Hierarchy.antt =====
-- The split of the loop nest: what `get_spatial_hierarchy` of simulator/src/pim_codegen/layout.h
-- accepts, and the sizes that it computes.
pub mod Nests
pub mod Columns
use kvc_pim.Base.{
  ℕ, length, ◌+◌, ◌*◌, ◌≡◌, refl, List, [], ◌∷◌, ◌++◌, arith, ap, ◌∙◌, some, if◌then◌else◌,
  length-append, ltb, true, false, none, if-cases, Bool, tests, append-nil, ◌<◌, sym, zero, suc,
  ◌-◌, ◌/◌, ltb-false,
}
use native.Mathlib.Nat.{mul_assoc, mul-one, add-zero, one-mul, mul-suc, suc-mul}
use kvc_pim.Layout.{
  Level, Tag, get_advance_spatial, Advance, parallel, sequential, skip_sequential, SpatialHierarchy,
  get_spatial_hierarchy, is_parallel, spatial_elems, cols_per_bank,
}
use kvc_pim.DataSpace.Hash.{div_digit}

abbrev pub AllTagged : Tag → List Level → Type 0
AllTagged t [] = Unit {0}
AllTagged t (l ∷ levels) = (l.ptag ≡ t) × AllTagged t levels

abbrev pub dim_product : List Level → ℕ
dim_product [] = 1
dim_product (l ∷ levels) = l.dim * dim_product levels

-- What a level list is split into at the first level with another tag.
record Split (t : Tag) (n i : ℕ) (levels : List Level) (a : Advance) : Type 0 where
  front : List Level
  front_tagged : AllTagged t front
  joined : levels ≡ front ++ a.rest
  counted : a.product ≡ n * dim_product front
  moved : a.index ≡ i + length front

Split-cons :
    (t : Tag) (n i : ℕ) (l : Level) (levels : List Level) (a : Advance)
    → l.ptag ≡ t
    → Split t (n * l.dim) (i + 1) levels a
    → Split t n i (l ∷ levels) a
Split-cons t n i l levels a e s = record {
  front = l ∷ s.front;
  front_tagged = (e, s.front_tagged);
  joined = ap (λ ls. l ∷ ls) s.joined;
  counted = s.counted ∙ mul_assoc n l.dim (dim_product s.front);
  moved = omega (arith, s.moved);
}

Split-stop :
    (t : Tag) (n i : ℕ) (levels : List Level)
    → Split t n i levels (record { product = n; index = i; rest = levels })
Split-stop t n i levels = record {
  front = [];
  front_tagged = tt;
  joined = refl;
  counted = omega arith;
  moved = omega arith;
}

tag_parallel : (t : Tag) → is_parallel t ≡ true → t ≡ parallel
tag_parallel t e = ground arith

tag_sequential : (t : Tag) → is_parallel t ≡ false → t ≡ sequential
tag_sequential t e = ground arith

get_advance_spatial-Split :
    (n i : ℕ) (levels : List Level) → Split parallel n i levels (get_advance_spatial n i levels)
unfolding get_advance_spatial
get_advance_spatial-Split n i [] = Split-stop parallel n i []
get_advance_spatial-Split n i (l ∷ levels) =
    if-cases (Split parallel n i (l ∷ levels)) (is_parallel l.ptag) _ _
      (λ e.
        Split-cons parallel n i l levels _ (tag_parallel l.ptag e)
          (get_advance_spatial-Split (n * l.dim) (i + 1) levels))
      (λ e. Split-stop parallel n i (l ∷ levels))

skip_sequential-Split :
    (n i : ℕ) (levels : List Level) → Split sequential n i levels (skip_sequential n i levels)
unfolding skip_sequential
skip_sequential-Split n i [] = Split-stop sequential n i []
skip_sequential-Split n i (l ∷ levels) =
    if-cases (Split sequential n i (l ∷ levels)) (is_parallel l.ptag) _ _
      (λ e. Split-stop sequential n i (l ∷ levels))
      (λ e.
        Split-cons sequential n i l levels _ (tag_sequential l.ptag e)
          (skip_sequential-Split (n * l.dim) (i + 1) levels))

-- The levels are the banks' parallel loops, then the sequential loops, then the columns' parallel
-- loops, and the sizes are the products of their dimensions.
pub record IsHierarchy (levels : List Level) (h : SpatialHierarchy) : Type 0 where
  pub banks : List Level
  pub steps : List Level
  pub cols : List Level
  pub joined : levels ≡ banks ++ (steps ++ cols)
  pub banks_tagged : AllTagged parallel banks
  pub steps_tagged : AllTagged sequential steps
  pub cols_tagged : AllTagged parallel cols
  pub banks_size : h.spatial_banks ≡ dim_product banks
  pub steps_size : h.sequential_steps ≡ dim_product steps
  pub cols_size : h.spatial_cols ≡ dim_product cols
  pub temporal_level : h.row_temporal_level ≡ length banks
  pub spatial_level : h.row_spatial_level ≡ length banks + length steps

nil_of_length : {A : Type 0} (xs : List A) → length xs ≡ 0 → xs ≡ []
nil_of_length [] e = refl
nil_of_length (x ∷ xs) e = absurd (omega arith)

if_none-some :
    {A : Type 0} (b : Bool) (x y : A)
    → (if b then none else some x) ≡ some y
    → (b ≡ false) × (x ≡ y)
if_none-some b x y e = ground arith

if_IsHierarchy :
    (levels : List Level) (h : SpatialHierarchy) (banks steps cols : Advance)
    → Split parallel 1 0 levels banks
    → Split sequential 1 banks.index banks.rest steps
    → Split parallel 1 steps.index steps.rest cols
    → (if ltb cols.index (length levels)
        then none
        else some record {
          spatial_banks = banks.product;
          sequential_steps = steps.product;
          spatial_cols = cols.product;
          row_temporal_level = banks.index;
          row_spatial_level = steps.index;
        })
      ≡ some h
    → IsHierarchy levels h
if_IsHierarchy levels h banks steps cols b s c e =
    let len : length levels
        ≡ length b.front + (length s.front + (length c.front + length cols.rest)) =
      ap length b.joined
      ∙ length-append b.front banks.rest
      ∙ ap (λ xs. length b.front + length xs) s.joined
      ∙ ap (λ n. length b.front + n)
          (length-append s.front steps.rest
            ∙ ap (λ xs. length s.front + length xs) c.joined
            ∙ ap (λ n. length s.front + n) (length-append c.front cols.rest)) in
    let kept = if_none-some (ltb cols.index (length levels)) _ h e in
    let stop : length cols.rest ≡ 0 =
      omega (tests, len, b.moved, s.moved, c.moved, ltb-false cols.index (length levels) kept.0) in
    let last : steps.rest ≡ c.front =
      c.joined ∙ ap (λ xs. c.front ++ xs) (nil_of_length cols.rest stop) ∙ append-nil c.front in
    let read = kept.1 in
    record {
      banks = b.front;
      steps = s.front;
      cols = c.front;
      joined = b.joined ∙ ap (λ xs. b.front ++ xs) (s.joined ∙ ap (λ xs. s.front ++ xs) last);
      banks_tagged = b.front_tagged;
      steps_tagged = s.front_tagged;
      cols_tagged = c.front_tagged;
      banks_size = omega (arith, ap (λ k. k.spatial_banks) read, b.counted);
      steps_size = omega (arith, ap (λ k. k.sequential_steps) read, s.counted);
      cols_size = omega (arith, ap (λ k. k.spatial_cols) read, c.counted);
      temporal_level = omega (arith, ap (λ k. k.row_temporal_level) read, b.moved);
      spatial_level = omega (arith, ap (λ k. k.row_spatial_level) read, b.moved, s.moved);
    }

-- The constructor accepts a loop nest only where it is made of parallel loops, sequential loops and
-- parallel loops, and the sizes that it keeps are the products of the dimensions of the three parts.
pub get_spatial_hierarchy-IsHierarchy :
    (levels : List Level) (h : SpatialHierarchy)
    → get_spatial_hierarchy levels ≡ some h
    → IsHierarchy levels h
unfolding get_spatial_hierarchy
get_spatial_hierarchy-IsHierarchy levels h e =
    let banks : Advance = get_advance_spatial 1 0 levels in
    let steps : Advance = skip_sequential 1 banks.index banks.rest in
    let cols : Advance = get_advance_spatial 1 steps.index steps.rest in
    if_IsHierarchy levels h banks steps cols (get_advance_spatial-Split 1 0 levels)
      (skip_sequential-Split 1 banks.index banks.rest)
      (get_advance_spatial-Split 1 steps.index steps.rest) e
