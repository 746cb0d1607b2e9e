-- ===== src/Layout/Infer/Room.antt =====
-- The room that the loop indices of an element in simulator/src/pim_codegen/layout.h have within the
-- sizes of the dimensions, without mapping coefficients.
use kvc_pim.Base.{
  ℕ, Bool-cases, if◌then◌else◌, is_empty, ◌+◌, ◌-◌, ◌*◌, ◌/◌, ◌%◌, ◌≤◌, ◌<◌, ◌≡◌, refl, sym, ap,
  ◌∙◌, inl, inr, true, Option, none, some, List, [], ◌∷◌, arith, if-cases, zero, suc, subst,
}
use native.Mathlib.Nat.{mul_assoc, mul-div_right, mod-lt, div-lt_iff_lt-mul}
use Prim.Native.String.{String}
use text.Mathlib.Text.{◌==◌ as str_eq}
use text.Mathlib.TextEquality.{path_by_compare}
use kvc_pim.Layout.{Level}
use kvc_pim.Layout.Infer.Opened.{room, width_parallel, width_sequential}
use kvc_pim.Layout.Infer.{
  Vars, mul_at, remaining_loop, enter, Plan, open_level, coeff_product, add_at, coeffs_of,
  dim_sizes, one_each, first_vars,
}
use kvc_pim.DataSpace.{LoopState}
use kvc_pim.Layout.Infer.Element.{Indexed, width, enter_level, element}

-- The product of the loops over one dimension.
abbrev pub named : List Level → String → ℕ
named [] name = 1
named (l ∷ levels) name =
    if str_eq l.loop name then l.dim * named levels name else named levels name

-- Where the indices of the outer loops leave room for those of the levels.
pub record HasRoom (size : LoopState) (levels : List Level) (v : Vars) : Type 0 where
  pub split : (name : String) → v.loop_base name * named levels name ≡ size name
  pub room : (name : String) → 0 < size name → v.loop_state name + named levels name ≤ size name

-- Every loop is over one of the dimensions.
abbrev pub AllSized : LoopState → List Level → Type 0
AllSized size [] = Unit {0}
AllSized size (l ∷ levels) = (0 < size l.loop) × AllSized size levels

eq_path : (a b : String) → str_eq a b ≡ true → a ≡ b
eq_path a b h = path_by_compare a b (ground arith)

mul_at-named :
    (l : Level) (levels : List Level) (base : LoopState) (name : String)
    → mul_at l.loop l.dim base name * named levels name ≡ base name * named (l ∷ levels) name
unfolding mul_at
mul_at-named l levels base name = elim (Bool-cases (str_eq l.loop name)) [
  | inl e ↦ rw e (mul_assoc (base name) l.dim (named levels name))
  | inr e ↦ rw e refl
]

pos_left : (a b c : ℕ) → a * b ≡ c → 0 < c → 0 < a
pos_left zero b c e h = absurd (omega arith)
pos_left (suc a) b c e h = omega arith

-- The step between two indices of a loop is the product of the inner loops over its dimension.
remaining_loop-named :
    (plan : Plan) (size : LoopState) (l : Level) (levels : List Level) (v : Vars)
    → is_empty plan.coeffs ≡ true
    → HasRoom size (l ∷ levels) v
    → 0 < size l.loop
    → remaining_loop plan size l (open_level l v) ≡ named levels l.loop
unfolding remaining_loop open_level
remaining_loop-named plan size l levels v c h pos_size =
    let whole : mul_at l.loop l.dim v.loop_base l.loop * named levels l.loop ≡ size l.loop =
      mul_at-named l levels v.loop_base l.loop ∙ h.split l.loop in
    ap
      (λ b.
        if b
        then size l.loop / mul_at l.loop l.dim v.loop_base l.loop
        else coeff_product (coeffs_of plan.coeffs l.loop) (v.dim_cur_level l.loop + 1)
            (2 - v.dim_cur_level l.loop))
      c
    ∙ ap (λ m. m / mul_at l.loop l.dim v.loop_base l.loop) (sym whole)
    ∙ mul-div_right (named levels l.loop)
        (pos_left _ (named levels l.loop) (size l.loop) whole pos_size)

offset_digits : (offset dim w : ℕ) → offset < dim * w → (offset % w < w) × (offset / w < dim)
offset_digits offset dim zero h = absurd (omega arith)
offset_digits offset dim (suc w) h =
    let some_width : 0 < suc w = omega arith in
    (mod-lt offset some_width, (div-lt_iff_lt-mul some_width).1 h)

enter_level-HasRoom :
    (plan : Plan) (n : ℕ) (size : LoopState) (l : Level) (levels : List Level) (idx : ℕ) (v : Vars)
    → is_empty plan.coeffs ≡ true
    → HasRoom size (l ∷ levels) v
    → 0 < size l.loop
    → idx < l.dim
    → HasRoom size levels (enter_level plan n size l idx v)
unfolding enter open_level add_at
enter_level-HasRoom plan n size l levels idx v c h pos_size lt = record {
  split = λ name. mul_at-named l levels v.loop_base name ∙ h.split name;
  room = λ name some_size.
      let inner = remaining_loop-named plan size l levels v c h pos_size in
      if-cases (λ s. s + named levels name ≤ size name) (str_eq l.loop name) _ _
        (λ e.
          let step : remaining_loop plan size l (open_level l v) ≡ named levels name =
            inner ∙ ap (named levels) (eq_path l.loop name e) in
          subst (λ k. v.loop_state name + idx * k + named levels name ≤ size name) (sym step)
            (room idx l.dim (named levels name) (v.loop_state name) (size name) lt (
              subst
                (λ b.
                  v.loop_state name + (if b then l.dim * named levels name else named levels name)
                  ≤ size name)
                e (h.room name some_size))))
        (λ e.
          subst
            (λ b.
              v.loop_state name + (if b then l.dim * named levels name else named levels name)
              ≤ size name)
            e (h.room name some_size));
}

pub element-HasRoom :
    (plan : Plan) (n : ℕ) (size : LoopState) (levels : List Level) (index : List (Option ℕ))
    (offset : ℕ) (v : Vars)
    → is_empty plan.coeffs ≡ true
    → Indexed levels index
    → AllSized size levels
    → offset < width levels
    → HasRoom size levels v
    → (name : String) → 0 < size name
    → element plan n size levels index offset v name < size name
element-HasRoom plan n size [] index offset v c ix a l h name s = omega (arith, h.room name s)
element-HasRoom plan n size (l ∷ levels) [] offset v c ix a lt h name s = absurd ix
element-HasRoom plan n size (l ∷ levels) (none ∷ index) offset v c ix a lt h name s =
    element-HasRoom plan n size levels index (offset % width levels)
      (enter_level plan n size l (offset / width levels) v) c ix.2 a.1
      (offset_digits offset l.dim (width levels)
        (subst (λ w. offset < w) (width_parallel l levels ix.0) lt)).0
      (enter_level-HasRoom plan n size l levels (offset / width levels) v c h a.0
        (offset_digits offset l.dim (width levels)
          (subst (λ w. offset < w) (width_parallel l levels ix.0) lt)).1)
      name s
element-HasRoom plan n size (l ∷ levels) (some fixed ∷ index) offset v c ix a lt h name s =
    element-HasRoom plan n size levels index offset (enter_level plan n size l fixed v) c ix.2 a.1
      (subst (λ w. offset < w) (width_sequential l levels ix.0) lt)
      (enter_level-HasRoom plan n size l levels fixed v c h a.0 ix.1) name s

dim_sizes-named :
    (levels : List Level) (base : LoopState) (name : String)
    → base name * named levels name ≡ dim_sizes levels base name
unfolding dim_sizes
dim_sizes-named [] base name = omega arith
dim_sizes-named (l ∷ levels) base name =
    sym (mul_at-named l levels base name) ∙ dim_sizes-named levels (mul_at l.loop l.dim base) name

one_each_small : (names : List String) (name : String) → one_each names name ≤ 1
unfolding one_each
one_each_small [] name = omega arith
one_each_small (other ∷ names) name =
    if-cases (λ k. k ≤ 1) (str_eq other name) _ _ (λ e. omega arith)
      (λ e. one_each_small names name)

at_most_one : (a b c : ℕ) → a ≤ 1 → a * b ≡ c → 0 < c → b ≤ c
at_most_one zero b c h e p = absurd (omega arith)
at_most_one (suc zero) b c h e p = omega arith
at_most_one (suc (suc a)) b c h e p = absurd (omega arith)

pub first_vars-HasRoom :
    (plan : Plan)
    → HasRoom (dim_sizes plan.levels (one_each plan.dim_names)) plan.levels (first_vars plan)
unfolding first_vars
first_vars-HasRoom plan = record {
  split = dim_sizes-named plan.levels (one_each plan.dim_names);
  room = λ name s. omega (
    arith,
    at_most_one (one_each plan.dim_names name) (named plan.levels name) _
        (one_each_small plan.dim_names name)
        (dim_sizes-named plan.levels (one_each plan.dim_names) name) s,
  );
}
