-- ===== src/Layout/Hierarchy/Columns.antt =====
-- The number of spatial elements and the columns of a bank in simulator/src/pim_codegen/layout.h,
-- against the sizes of the hierarchy.
use kvc_pim.Base.{
  ℕ, ◌+◌, ◌*◌, ◌≡◌, refl, List, [], ◌∷◌, ◌++◌, arith, ap, ◌∙◌, some, if◌then◌else◌, ◌<◌, sym, zero,
  suc, ◌-◌, ◌/◌,
}
use native.Mathlib.Nat.{mul_assoc, one-mul, mul-suc, suc-mul}
use kvc_pim.Layout.{
  Level, parallel, sequential, SpatialHierarchy, get_spatial_hierarchy, is_parallel, spatial_elems,
  cols_per_bank,
}
use kvc_pim.DataSpace.Hash.{div_digit}
use kvc_pim.Layout.Hierarchy.{
  AllTagged, dim_product, IsHierarchy, get_spatial_hierarchy-IsHierarchy,
}

spatial_elems-append :
    (n : ℕ) (xs ys : List Level)
    → spatial_elems n (xs ++ ys) ≡ spatial_elems (spatial_elems n xs) ys
unfolding spatial_elems
spatial_elems-append n [] ys = refl
spatial_elems-append n (l ∷ xs) ys =
    spatial_elems-append (if is_parallel l.ptag then n * l.dim else n) xs ys

spatial_elems-parallel :
    (n : ℕ) (levels : List Level)
    → AllTagged parallel levels
    → spatial_elems n levels ≡ n * dim_product levels
unfolding spatial_elems
spatial_elems-parallel n [] h = omega arith
spatial_elems-parallel n (l ∷ levels) h =
    ap (λ t. spatial_elems (if is_parallel t then n * l.dim else n) levels) h.0
    ∙ spatial_elems-parallel (n * l.dim) levels h.1
    ∙ mul_assoc n l.dim (dim_product levels)

spatial_elems-sequential :
    (n : ℕ) (levels : List Level) → AllTagged sequential levels → spatial_elems n levels ≡ n
unfolding spatial_elems
spatial_elems-sequential n [] h = refl
spatial_elems-sequential n (l ∷ levels) h =
    ap (λ t. spatial_elems (if is_parallel t then n * l.dim else n) levels) h.0
    ∙ spatial_elems-sequential n levels h.1

pub spatial_elems_lem :
    (levels : List Level) (h : SpatialHierarchy)
    → IsHierarchy levels h
    → spatial_elems 1 levels ≡ h.spatial_banks * h.spatial_cols
spatial_elems_lem levels h i =
    ap (spatial_elems 1) i.joined
    ∙ spatial_elems-append 1 i.banks (i.steps ++ i.cols)
    ∙ spatial_elems-append (spatial_elems 1 i.banks) i.steps i.cols
    ∙ spatial_elems-parallel _ i.cols i.cols_tagged
    ∙ ap (λ n. n * dim_product i.cols)
        (spatial_elems-sequential _ i.steps i.steps_tagged
          ∙ spatial_elems-parallel 1 i.banks i.banks_tagged)
    ∙ ap (λ n. n * dim_product i.cols) (one-mul (dim_product i.banks) ∙ sym i.banks_size)
    ∙ ap (λ n. h.spatial_banks * n) (sym i.cols_size)

div_rounded_up : (a b : ℕ) → 0 < a → 0 < b → (a * b - 1) / a + 1 ≡ b
div_rounded_up a zero h k = absurd (omega arith)
div_rounded_up zero (suc b) h k = absurd (omega arith)
div_rounded_up (suc a) (suc b) h k =
    let e : suc a * suc b - 1 ≡ b * suc a + a = rw (suc-mul, mul-suc) (omega arith) in
    ap (λ n. n / suc a + 1) e ∙ ap (λ n. n + 1) (div_digit b a (suc a) (omega arith)) ∙ omega arith

-- In a layout that the constructor accepts, whose sizes are not 0, the columns of a bank that
-- `infer_layout` computes from the number of spatial elements are the columns of the hierarchy: its
-- assertion holds.
pub cols_per_bank_lem :
    (levels : List Level) (h : SpatialHierarchy)
    → get_spatial_hierarchy levels ≡ some h
    → 0 < h.spatial_banks
    → 0 < h.spatial_cols
    → cols_per_bank levels h ≡ h.spatial_cols
unfolding cols_per_bank
cols_per_bank_lem levels h e b c =
    let n = spatial_elems_lem levels h (get_spatial_hierarchy-IsHierarchy levels h e) in
    ap (λ m. (m - 1) / h.spatial_banks + 1) n ∙ div_rounded_up h.spatial_banks h.spatial_cols b c
