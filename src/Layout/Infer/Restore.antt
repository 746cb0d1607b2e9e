-- ===== src/Layout/Infer/Restore.antt =====
-- The search of simulator/src/pim_codegen/layout.h restores its variables.
use kvc_pim.Base.{
  ℕ, get_or, zero, suc, ◌+◌, ◌*◌, ◌/◌, ◌<◌, ◌≡◌, refl, ap, fun_ext, ◌∙◌, Option, none, List, [],
  ◌∷◌, arith, if-cases, if◌then◌else◌, Bool, true, false,
}
use native.Mathlib.Nat.{mul-div_left}
use mathlib.Core.Path.{ap₂}
use Prim.Native.String.{String}
use kvc_pim.Layout.{Level, is_parallel}
use kvc_pim.Layout.Infer.{
  Vars, sub_at, div_at, leave, close_level, each_index, recursive_infer, add_at, mul_at, enter,
  open_level, Search, Plan, LoopState, skips, leaves_bank, tail_index, remaining_elems,
  remaining_loop,
}

abbrev pub AllPositive : List Level → Type 0
AllPositive [] = Unit {0}
AllPositive (l ∷ levels) = (0 < l.dim) × AllPositive levels

sub_at-add_at :
    (name : String) (n : ℕ) (state : LoopState) → sub_at name n (add_at name n state) ≡ state
unfolding sub_at add_at
sub_at-add_at name n state = fun_ext λ other. ground arith

div_mul : (a b : ℕ) → 0 < b → a * b / b ≡ a
div_mul a b h = mul-div_left a h

div_at-mul_at :
    (name : String) (n : ℕ) (state : LoopState)
    → 0 < n
    → div_at name n (mul_at name n state) ≡ state
unfolding div_at mul_at
div_at-mul_at name n state h = fun_ext λ other. ground (arith, div_mul (state other) n h)

pub leave-enter :
    (name : String) (elems loop idx : ℕ) (v : Vars)
    → leave name elems loop idx (enter name elems loop idx v) ≡ v
unfolding leave enter
leave-enter name elems loop idx v =
    ap₂
      (λ id state. record (leave name elems loop idx (enter name elems loop idx v)) {
        spatial_id = id;
        loop_state = state;
      })
      {y = v.spatial_id} (omega arith) (sub_at-add_at name (idx * loop) v.loop_state)
    ∙ ap (λ level. record v { dim_cur_level = level }) (sub_at-add_at name 1 v.dim_cur_level)

base_restored :
    (b : Bool) (base dim : ℕ)
    → 0 < dim
    → (let opened : ℕ = if b then base * dim else base in if b then opened / dim else opened) ≡ base
base_restored true base dim h = div_mul base dim h
base_restored false base dim h = refl

close_level-open_level : (l : Level) (v : Vars) → 0 < l.dim → close_level l (open_level l v) ≡ v
unfolding close_level open_level
close_level-open_level l v h =
    ap₂ (λ base loop_base. record v { base_spatial = base; loop_base = loop_base })
      (base_restored (is_parallel l.ptag) v.base_spatial l.dim h)
      (div_at-mul_at l.loop l.dim v.loop_base h)

-- A body that keeps the variables is kept by the loop over the indices.
pub each_index-vars :
    (infer : Search → Search) (name : String) (fixed : Option ℕ) (elems loop rounds idx : ℕ)
    (s : Search)
    → ((t : Search) → (infer t).vars ≡ t.vars)
    → (each_index infer name fixed elems loop rounds idx s).vars ≡ s.vars
unfolding each_index
each_index-vars infer name fixed elems loop zero idx s h = refl
each_index-vars infer name fixed elems loop (suc rounds) idx s h =
    each_index-vars infer name fixed elems loop rounds (idx + 1) _ h
    ∙ if-cases (λ (t : Search). t.vars ≡ s.vars) (skips fixed idx) _ _ (λ e. refl)
        (λ e.
          ap (leave name elems loop idx) (h (record s { vars = enter name elems loop idx s.vars }))
          ∙ leave-enter name elems loop idx s.vars)

-- Whatever the time step and the data, the search through levels of positive dimensions leaves all its
-- variables as it found them.
pub recursive_infer-vars :
    (plan : Plan) (n_spatial_elems : ℕ) (dim_size : LoopState) (levels : List Level)
    (index : List (Option ℕ)) (s : Search)
    → AllPositive levels
    → (recursive_infer plan n_spatial_elems dim_size levels index s).vars ≡ s.vars
unfolding recursive_infer
recursive_infer-vars plan n size [] index s h =
    if-cases (λ (t : Search). t.vars ≡ s.vars) (leaves_bank plan s.vars) _ _ (λ e. refl) (λ e. refl)
recursive_infer-vars plan n size (l ∷ levels) index s h =
    if-cases (λ (t : Search). t.vars ≡ s.vars) (leaves_bank plan s.vars) _ _ (λ e. refl)
      (λ e.
        ap (close_level l) (
          each_index-vars (recursive_infer plan n size levels (tail_index index)) l.loop
            (get_or index 0 none) (remaining_elems n l (open_level l s.vars))
            (remaining_loop plan size l (open_level l s.vars)) l.dim 0
            (record s { vars = open_level l s.vars })
            (λ t. recursive_infer-vars plan n size levels (tail_index index) t h.1))
        ∙ close_level-open_level l s.vars h.0)
