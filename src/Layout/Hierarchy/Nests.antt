-- ===== src/Layout/Hierarchy/Nests.antt =====
-- The loop nests that `get_spatial_hierarchy` of simulator/src/pim_codegen/layout.h accepts.
use kvc_pim.Base.{
  ℕ, length, ◌+◌, ◌*◌, ◌≡◌, refl, List, [], ◌∷◌, ◌++◌, arith, ap, ◌∙◌, some, if◌then◌else◌,
  length-append, append-nil, sym,
}
use native.Mathlib.Nat.{mul_assoc, mul-one, add-zero}
use kvc_pim.Layout.{
  Level, get_advance_spatial, parallel, sequential, skip_sequential, get_spatial_hierarchy,
  is_parallel,
}
use kvc_pim.Layout.Hierarchy.{AllTagged, dim_product}

get_advance_spatial-append :
    (n i : ℕ) (xs ys : List Level)
    → AllTagged parallel xs
    → get_advance_spatial n i (xs ++ ys)
      ≡ get_advance_spatial (n * dim_product xs) (i + length xs) ys
unfolding get_advance_spatial
get_advance_spatial-append n i [] ys h = rw (mul-one, add-zero) refl
get_advance_spatial-append n i (l ∷ xs) ys h =
    ap
      (λ t.
        if is_parallel t
        then get_advance_spatial (n * l.dim) (i + 1) (xs ++ ys)
        else record { product = n; index = i; rest = l ∷ (xs ++ ys) })
      h.0
    ∙ get_advance_spatial-append (n * l.dim) (i + 1) xs ys h.1
    ∙ ap (λ m. get_advance_spatial m (i + 1 + length xs) ys) (mul_assoc n l.dim (dim_product xs))
    ∙ ap (λ j. get_advance_spatial (n * (l.dim * dim_product xs)) j ys) (omega arith)

skip_sequential-append :
    (n i : ℕ) (xs ys : List Level)
    → AllTagged sequential xs
    → skip_sequential n i (xs ++ ys) ≡ skip_sequential (n * dim_product xs) (i + length xs) ys
unfolding skip_sequential
skip_sequential-append n i [] ys h = rw (mul-one, add-zero) refl
skip_sequential-append n i (l ∷ xs) ys h =
    ap
      (λ t.
        if is_parallel t
        then record { product = n; index = i; rest = l ∷ (xs ++ ys) }
        else skip_sequential (n * l.dim) (i + 1) (xs ++ ys))
      h.0
    ∙ skip_sequential-append (n * l.dim) (i + 1) xs ys h.1
    ∙ ap (λ m. skip_sequential m (i + 1 + length xs) ys) (mul_assoc n l.dim (dim_product xs))
    ∙ ap (λ j. skip_sequential (n * (l.dim * dim_product xs)) j ys) (omega arith)

get_advance_spatial-stop :
    (n i : ℕ) (l : Level) (ys : List Level)
    → l.ptag ≡ sequential
    → get_advance_spatial n i (l ∷ ys) ≡ record { product = n; index = i; rest = l ∷ ys }
unfolding get_advance_spatial
get_advance_spatial-stop n i l ys h =
    ap
      (λ t.
        if is_parallel t
        then get_advance_spatial (n * l.dim) (i + 1) ys
        else record { product = n; index = i; rest = l ∷ ys })
      h

skip_sequential-stop :
    (n i : ℕ) (ys : List Level)
    → AllTagged parallel ys
    → skip_sequential n i ys ≡ record { product = n; index = i; rest = ys }
unfolding skip_sequential
skip_sequential-stop n i [] h = refl
skip_sequential-stop n i (l ∷ ys) h =
    ap
      (λ t.
        if is_parallel t
        then record { product = n; index = i; rest = l ∷ ys }
        else skip_sequential (n * l.dim) (i + 1) ys)
      h.0

get_advance_spatial-all :
    (n i : ℕ) (xs : List Level)
    → AllTagged parallel xs
    → get_advance_spatial n i xs
      ≡ record { product = n * dim_product xs; index = i + length xs; rest = [] }
unfolding get_advance_spatial
get_advance_spatial-all n i xs h =
    ap (get_advance_spatial n i) (sym (append-nil xs)) ∙ get_advance_spatial-append n i xs [] h

-- The loop nests that the constructor accepts: where there is a sequential loop, every nest of parallel,
-- sequential and parallel loops, with the products of the dimensions of the three parts.
pub get_spatial_hierarchy-append :
    (banks : List Level) (l : Level) (steps cols : List Level)
    → AllTagged parallel banks
    → AllTagged sequential (l ∷ steps)
    → AllTagged parallel cols
    → get_spatial_hierarchy (banks ++ ((l ∷ steps) ++ cols))
      ≡ some record {
        spatial_banks = dim_product banks;
        sequential_steps = dim_product (l ∷ steps);
        spatial_cols = dim_product cols;
        row_temporal_level = length banks;
        row_spatial_level = length banks + length (l ∷ steps);
      }
unfolding get_spatial_hierarchy
get_spatial_hierarchy-append banks l steps cols b s c =
    rw
      (
        get_advance_spatial-append 1 0 banks (l ∷ (steps ++ cols)) b,
        get_advance_spatial-stop (1 * dim_product banks) (0 + length banks) l (steps ++ cols) s.0,
        skip_sequential-append 1 (0 + length banks) (l ∷ steps) cols s,
        skip_sequential-stop (1 * dim_product (l ∷ steps)) (0 + length banks + length (l ∷ steps))
            cols c,
        get_advance_spatial-all 1 (0 + length banks + length (l ∷ steps)) cols c,
      )
      (ground (arith, length-append banks (l ∷ (steps ++ cols)), length-append steps cols))
