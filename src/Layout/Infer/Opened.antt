-- ===== src/Layout/Infer/Opened.antt =====
-- What a parallel and a sequential level do to the variables of the search in
-- simulator/src/pim_codegen/layout.h, and the digits of the elements.
use kvc_pim.Base.{
  ℕ, ◌+◌, ◌-◌, ◌*◌, ◌≤◌, ◌<◌, ◌≡◌, ap, ◌∙◌, Option, none, some, List, [], ◌∷◌, ◌++◌, arith,
  if◌then◌else◌, ◌/◌, ◌%◌, refl, sym, Bool, true, false, suc,
}
use native.Mathlib.Nat.{mul-div_right, suc-mul, add-mul}
use kvc_pim.Layout.{Level, parallel, sequential, is_parallel}
use kvc_pim.Layout.Infer.{Vars, Plan, PimTensors, open_level, remaining_elems}
use kvc_pim.DataSpace.{LoopState, Projection}
use kvc_pim.Layout.Infer.Element.{Filled, Indexed, cell, width, hit, pushed}
use kvc_pim.Layout.Infer.Restore.{AllPositive}
use kvc_pim.DataSpace.Hash.{div_digit, mod_digit}

pub Indexed-AllPositive :
    (levels : List Level) (index : List (Option ℕ)) → Indexed levels index → AllPositive levels
Indexed-AllPositive [] index h = tt
Indexed-AllPositive (l ∷ levels) [] h = absurd h
Indexed-AllPositive (l ∷ levels) (none ∷ index) h = (h.1, Indexed-AllPositive levels index h.2)
Indexed-AllPositive (l ∷ levels) (some fixed ∷ index) h =
    (omega arith, Indexed-AllPositive levels index h.2)

pub hit_range :
    (plan : Plan) (lo w sid : ℕ) → hit plan lo w sid ≡ true → (lo ≤ sid) × (sid < lo + w)
hit_range plan lo w sid h = ground arith

pub pushed_agree :
    (b : Bool) (f g : LoopState) (p : Projection) → (b ≡ true → f ≡ g) → pushed b f p ≡ pushed b g p
pushed_agree true f g p h = ap (λ s. pushed true s p) (h refl)
pushed_agree false f g p h = refl

pub Filled-agree :
    (plan : Plan) (n : ℕ) (f g : ℕ → LoopState) (lo w : ℕ) (a b : PimTensors)
    → ((sid : ℕ) → lo ≤ sid → sid < lo + w → f sid ≡ g sid)
    → Filled plan n f lo w a b
    → Filled plan n g lo w a b
Filled-agree plan n f g lo w a b e h = record {
  shaped = h.shaped;
  cells = λ i sid p q l.
      h.cells i sid p q l
      ∙ ap (λ xs. cell a i sid ++ xs)
          (pushed_agree (hit plan lo w sid) (f sid) (g sid) p
            (λ t. (e sid (hit_range plan lo w sid t).0 (hit_range plan lo w sid t).1)));
}

-- What a parallel level, and a sequential one, does to the variables.
pub width_parallel :
    (l : Level) (levels : List Level)
    → l.ptag ≡ parallel
    → width (l ∷ levels) ≡ l.dim * width levels
width_parallel l levels p = ap (λ t. if is_parallel t then l.dim * width levels else width levels) p

pub width_sequential :
    (l : Level) (levels : List Level) → l.ptag ≡ sequential → width (l ∷ levels) ≡ width levels
width_sequential l levels p =
    ap (λ t. if is_parallel t then l.dim * width levels else width levels) p

pub base_parallel :
    (l : Level) (v : Vars)
    → l.ptag ≡ parallel
    → (open_level l v).base_spatial ≡ v.base_spatial * l.dim
unfolding open_level
base_parallel l v p = ap (λ t. if is_parallel t then v.base_spatial * l.dim else v.base_spatial) p

pub base_sequential :
    (l : Level) (v : Vars) → l.ptag ≡ sequential → (open_level l v).base_spatial ≡ v.base_spatial
unfolding open_level
base_sequential l v p = ap (λ t. if is_parallel t then v.base_spatial * l.dim else v.base_spatial) p

pub elems_sequential :
    (n : ℕ) (l : Level) (v : Vars) → l.ptag ≡ sequential → remaining_elems n l v ≡ 0
unfolding remaining_elems
elems_sequential n l v p = ap (λ t. if is_parallel t then n / v.base_spatial else 0) p

pub elems_parallel :
    (n : ℕ) (l : Level) (levels : List Level) (v : Vars)
    → l.ptag ≡ parallel
    → 0 < v.base_spatial
    → n ≡ v.base_spatial * width levels
    → remaining_elems n l v ≡ width levels
unfolding remaining_elems
elems_parallel n l levels v p h e =
    ap (λ t. if is_parallel t then n / v.base_spatial else 0) p
    ∙ ap (λ m. m / v.base_spatial) e
    ∙ mul-div_right (width levels) h

pub digits :
    (i w lo sid : ℕ)
    → lo + i * w ≤ sid
    → sid < lo + i * w + w
    → ((sid - lo) / w ≡ i) × ((sid - lo) % w ≡ sid - (lo + i * w))
digits i w lo sid h k =
    let r : ℕ = sid - (lo + i * w) in
    let e : sid - lo ≡ i * w + r = omega arith in
    (
      ap (λ m. m / w) e ∙ div_digit i r w (omega arith),
      ap (λ m. m % w) e ∙ mod_digit i r w (omega arith),
    )

pub room : (i dim w lo n : ℕ) → i < dim → lo + dim * w ≤ n → lo + i * w + w ≤ n
room i dim w lo n h k =
    let more : suc i * w + (dim - suc i) * w ≡ dim * w =
      sym (add-mul (suc i) (dim - suc i) w) ∙ ap (λ m. m * w) (omega arith) in
    let here : suc i * w ≡ w + i * w = rw suc-mul (omega arith) in omega arith
