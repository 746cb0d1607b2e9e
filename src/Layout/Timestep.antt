-- ===== src/Layout/Timestep.antt =====
-- The indices that `setup_timestep` of simulator/src/pim_codegen/layout.h fixes for a time step: its
-- digits in the mixed radix of the sequential levels.
pub mod Legal
use kvc_pim.Base.{
  ℕ, get_or, get_or-set_ne, length, length-set, set, zero, suc, ◌+◌, ◌*◌, ◌/◌, ◌%◌, ◌≤◌, ◌<◌, ◌≡◌,
  refl, ◌∙◌, Option, none, some, List, arith, get_or-set_self, ap, length-append, ◌-◌, sym, subst,
  ◌⊎◌, ◌++◌, map, get_or-replicate, length-replicate, replicate, inl, inr, [], ◌∷◌,
}
use native.Mathlib.Decide.{ℕ_discrete}
use native.Mathlib.Nat.{div-lt_iff_lt-mul, div-add-mod', mod-lt, mul_assoc}
use kvc_pim.Layout.{
  Level, set_timestep_levels, SpatialHierarchy, setup_timestep, get_spatial_hierarchy,
}
use kvc_pim.Layout.Hierarchy.{get_spatial_hierarchy-IsHierarchy, dim_product, IsHierarchy}

-- The dimensions of `rounds` levels from a level on, multiplied.
abbrev pub steps_of : List ℕ → ℕ → ℕ → ℕ
steps_of dims temporal zero = 1
steps_of dims temporal (suc rounds) =
    steps_of dims temporal rounds * get_or dims (temporal + rounds) 0

abbrev value_or : ℕ → Option ℕ → ℕ
value_or d none = d
value_or d (some n) = n

-- The time step that the indices of `rounds` levels from a level on stand for: the value of the loop
-- nest's counter.
abbrev pub timestep_of : List ℕ → ℕ → ℕ → List (Option ℕ) → ℕ
timestep_of dims temporal zero index = 0
timestep_of dims temporal (suc rounds) index =
    timestep_of dims temporal rounds index * get_or dims (temporal + rounds) 0
    + value_or 0 (get_or index (temporal + rounds) none)

-- A write at or above the last level that is read changes nothing.
timestep_of-set :
    (dims : List ℕ) (temporal rounds level : ℕ) (v : Option ℕ) (index : List (Option ℕ))
    → temporal + rounds ≤ level
    → timestep_of dims temporal rounds (set index level v) ≡ timestep_of dims temporal rounds index
timestep_of-set dims temporal zero level v index le = refl
timestep_of-set dims temporal (suc rounds) level v index le =
    ap
      (λ n.
        n * get_or dims (temporal + rounds) 0
        + value_or 0 (get_or (set index level v) (temporal + rounds) none))
      (timestep_of-set dims temporal rounds level v index (omega arith))
    ∙ ap
        (λ o.
          timestep_of dims temporal rounds index * get_or dims (temporal + rounds) 0 + value_or 0 o)
        (get_or-set_ne index level (temporal + rounds) v none (λ e. omega arith))

pub set_timestep_levels-above :
    (dims : List ℕ) (temporal rounds t level : ℕ) (index : List (Option ℕ))
    → temporal + rounds ≤ level
    → get_or (set_timestep_levels dims temporal rounds t index) level none ≡ get_or index level none
unfolding set_timestep_levels
set_timestep_levels-above dims temporal zero t level index le = refl
set_timestep_levels-above dims temporal (suc rounds) t level index le =
    set_timestep_levels-above dims temporal rounds (t / get_or dims (temporal + rounds) 0) level
      (set index (temporal + rounds) (some (t % get_or dims (temporal + rounds) 0))) (omega arith)
    ∙ get_or-set_ne index (temporal + rounds) level (some (t % get_or dims (temporal + rounds) 0))
        none (λ e. omega arith)

pub set_timestep_levels-below :
    (dims : List ℕ) (temporal rounds t level : ℕ) (index : List (Option ℕ))
    → level < temporal
    → get_or (set_timestep_levels dims temporal rounds t index) level none ≡ get_or index level none
unfolding set_timestep_levels
set_timestep_levels-below dims temporal zero t level index le = refl
set_timestep_levels-below dims temporal (suc rounds) t level index le =
    set_timestep_levels-below dims temporal rounds (t / get_or dims (temporal + rounds) 0) level
      (set index (temporal + rounds) (some (t % get_or dims (temporal + rounds) 0))) le
    ∙ get_or-set_ne index (temporal + rounds) level (some (t % get_or dims (temporal + rounds) 0))
        none (λ e. omega arith)

pub length-set_timestep_levels :
    (dims : List ℕ) (temporal rounds t : ℕ) (index : List (Option ℕ))
    → length (set_timestep_levels dims temporal rounds t index) ≡ length index
unfolding set_timestep_levels
length-set_timestep_levels dims temporal zero t index = refl
length-set_timestep_levels dims temporal (suc rounds) t index =
    length-set_timestep_levels dims temporal rounds (t / get_or dims (temporal + rounds) 0)
      (set index (temporal + rounds) (some (t % get_or dims (temporal + rounds) 0)))
    ∙ length-set index (temporal + rounds) (some (t % get_or dims (temporal + rounds) 0))

-- Every level that is set holds an index below its dimension.
pub set_timestep_levels-digit :
    (dims : List ℕ) (temporal rounds t level : ℕ) (index : List (Option ℕ))
    → temporal ≤ level
    → level < temporal + rounds
    → temporal + rounds ≤ length index
    → 0 < get_or dims level 0
    → (digit : ℕ) × (get_or (set_timestep_levels dims temporal rounds t index) level none
        ≡ some digit)
      × (digit < get_or dims level 0)
unfolding set_timestep_levels
set_timestep_levels-digit dims temporal zero t level index le lt len dim_pos = absurd (omega arith)
set_timestep_levels-digit dims temporal (suc rounds) t level index le lt len dim_pos =
    elim (ℕ_discrete level (temporal + rounds)) [
      | yes e ↦ (
        t % get_or dims (temporal + rounds) 0,
        set_timestep_levels-above dims temporal rounds (t / get_or dims (temporal + rounds) 0) level
              (set index (temporal + rounds) (some (t % get_or dims (temporal + rounds) 0)))
              (omega arith)
            ∙ ap
                (λ k.
                  get_or
                    (set index (temporal + rounds) (some (t % get_or dims (temporal + rounds) 0))) k
                    none)
                e
            ∙ get_or-set_self index (temporal + rounds)
                (some (t % get_or dims (temporal + rounds) 0)) none (omega arith),
        subst (λ k. t % get_or dims (temporal + rounds) 0 < get_or dims k 0) (sym e)
            (mod-lt t (subst (λ k. 0 < get_or dims k 0) e dim_pos)),
      )
      | no ne ↦
          set_timestep_levels-digit dims temporal rounds (t / get_or dims (temporal + rounds) 0)
            level (set index (temporal + rounds) (some (t % get_or dims (temporal + rounds) 0))) le
            (omega arith)
            (omega (
              arith,
              length-set index (temporal + rounds) (some (t % get_or dims (temporal + rounds) 0)),
            ))
            dim_pos
    ]

pub timestep_of-set_timestep_levels :
    (dims : List ℕ) (temporal rounds t : ℕ) (index : List (Option ℕ))
    → temporal + rounds ≤ length index
    → ((i : ℕ) → i < rounds → 0 < get_or dims (temporal + i) 0)
    → t < steps_of dims temporal rounds
    → timestep_of dims temporal rounds (set_timestep_levels dims temporal rounds t index) ≡ t
unfolding set_timestep_levels
timestep_of-set_timestep_levels dims temporal zero t index len dims_pos lt = omega arith
timestep_of-set_timestep_levels dims temporal (suc rounds) t index len dims_pos lt =
    let d : ℕ = get_or dims (temporal + rounds) 0 in
    let d_pos : 0 < d = dims_pos rounds (omega arith) in
    let index' : List (Option ℕ) = set index (temporal + rounds) (some (t % d)) in
    let filled : List (Option ℕ) = set_timestep_levels dims temporal rounds (t / d) index' in
    ap (λ n. n * d + value_or 0 (get_or filled (temporal + rounds) none))
      (timestep_of-set_timestep_levels dims temporal rounds (t / d) index'
        (omega (arith, length-set index (temporal + rounds) (some (t % d))))
        (λ i l. dims_pos i (omega arith)) ((div-lt_iff_lt-mul d_pos).1 lt))
    ∙ ap (λ o. t / d * d + value_or 0 o)
        (set_timestep_levels-above dims temporal rounds (t / d) (temporal + rounds) index'
            (omega arith)
          ∙ get_or-set_self index (temporal + rounds) (some (t % d)) none (omega arith))
    ∙ div-add-mod' t d
