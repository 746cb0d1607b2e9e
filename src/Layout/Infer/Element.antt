-- ===== src/Layout/Infer/Element.antt =====
-- The layout of a time step in closed form: for each spatial element, the indices of its loops. The
-- search of simulator/src/pim_codegen/layout.h visits the elements one by one.
use kvc_pim.Base.{
  ℕ, get_elem?, get_or, if◌then◌else◌, leb, length, ltb, ◌+◌, ◌*◌, ◌/◌, ◌%◌, ◌<◌, ◌≡◌, refl, sym,
  ap, ◌∙◌, Bool, true, false, not, ◌&&◌, ◌||◌, Option, none, some, List, [], ◌∷◌, ◌++◌, arith,
  append-nil, true≢false,
}
use kvc_pim.Layout.{Level, is_parallel, parallel, sequential}
use kvc_pim.Layout.Infer.{
  Vars, Plan, PimTensors, Projection, LoopState, open_level, DataSpaceIdx, enter, calc_data_space,
  remaining_elems, remaining_loop,
}

-- The number of spatial elements that the levels span.
abbrev pub width : List Level → ℕ
width [] = 1
width (l ∷ levels) = if is_parallel l.ptag then l.dim * width levels else width levels

-- A parallel level is free and a sequential one is fixed below its dimension; no dimension is 0.
abbrev pub Indexed : List Level → List (Option ℕ) → Type 0
Indexed [] index = Unit {0}
Indexed (l ∷ levels) [] = ⊥
Indexed (l ∷ levels) (none ∷ index) = (l.ptag ≡ parallel) × (0 < l.dim) × Indexed levels index
Indexed (l ∷ levels) (some fixed ∷ index) =
    (l.ptag ≡ sequential) × (fixed < l.dim) × Indexed levels index

module _ (plan : Plan) (n_spatial_elems : ℕ) (dim_size : LoopState) where
  abbrev pub enter_level : Level → ℕ → Vars → Vars
  enter_level l idx v =
      let opened = open_level l v in
      enter l.loop (remaining_elems n_spatial_elems l opened)
        (remaining_loop plan dim_size l opened) idx opened

  -- The loop indices of the spatial element at an offset from the first one that the levels span.
  abbrev pub element : List Level → List (Option ℕ) → ℕ → Vars → LoopState
  element [] index offset v = v.loop_state
  element (l ∷ levels) [] offset v = v.loop_state
  element (l ∷ levels) (none ∷ index) offset v =
      element levels index (offset % width levels) (enter_level l (offset / width levels) v)
  element (l ∷ levels) (some fixed ∷ index) offset v =
      element levels index offset (enter_level l fixed v)

-- The data spaces of a tensor at a spatial element.
abbrev pub cell : PimTensors → ℕ → ℕ → List DataSpaceIdx
cell tensors i spatial_id = get_or (get_or tensors i []) spatial_id []

-- One row of spatial elements for each tensor.
abbrev pub Shaped : ℕ → List Projection → PimTensors → Type 0
Shaped n [] [] = Unit {0}
Shaped n [] (t ∷ tensors) = ⊥
Shaped n (p ∷ projections) [] = ⊥
Shaped n (p ∷ projections) (t ∷ tensors) = (length t ≡ n) × Shaped n projections tensors

-- The spatial elements that are visited: those of a range, of which the single-bank option keeps the
-- first bank's.
abbrev pub kept : Plan → ℕ → Bool
kept plan sid = not (plan.single_bank_opt && leb plan.spatial_cols sid)

abbrev pub hit : Plan → ℕ → ℕ → ℕ → Bool
hit plan lo w sid = leb lo sid && ltb sid (lo + w) && kept plan sid

abbrev pub pushed : Bool → LoopState → Projection → List DataSpaceIdx
pushed b state p = if b then calc_data_space state p ∷ [] else []

-- Every element that is visited has got one data space of each tensor, at its loop indices `f`, and
-- the others have kept what they had.
pub record Filled (plan : Plan) (n : ℕ) (f : ℕ → LoopState) (lo w : ℕ) (before after : PimTensors)
    : Type 0 where
  pub shaped : Shaped n plan.projections after
  pub cells :
      (i sid : ℕ) (p : Projection)
      → get_elem? plan.projections i ≡ some p
      → sid < n
      → cell after i sid ≡ cell before i sid ++ pushed (hit plan lo w sid) (f sid) p

pushed_join :
    (x y z : Bool) (state : LoopState) (p : Projection) (xs : List DataSpaceIdx)
    → z ≡ (x || y)
    → (x && y) ≡ false
    → (xs ++ pushed x state p) ++ pushed y state p ≡ xs ++ pushed z state p
pushed_join true true z state p xs e d = absurd (true≢false d)
pushed_join true false z state p xs e d = rw (e, append-nil) refl
pushed_join false y z state p xs e d = rw (e, append-nil) refl

range_join :
    (lo w w' sid : ℕ) (b : Bool)
    → (leb lo sid && ltb sid (lo + (w + w')) && b)
      ≡ ((leb lo sid && ltb sid (lo + w) && b) || (leb (lo + w) sid && ltb sid (lo + w + w') && b))
range_join lo w w' sid b = ground arith

range_apart :
    (lo w w' sid : ℕ) (b : Bool)
    → ((leb lo sid && ltb sid (lo + w) && b) && (leb (lo + w) sid && ltb sid (lo + w + w') && b))
      ≡ false
range_apart lo w w' sid b = ground arith

pub Filled-none :
    (plan : Plan) (n : ℕ) (f : ℕ → LoopState) (lo w : ℕ) (ts : PimTensors)
    → Shaped n plan.projections ts
    → ((sid : ℕ) → hit plan lo w sid ≡ false)
    → Filled plan n f lo w ts ts
Filled-none plan n f lo w ts h none_hit = record {
  shaped = h;
  cells = λ i sid p e l.
      sym
        (ap (λ b. cell ts i sid ++ pushed b (f sid) p) (none_hit sid) ∙ append-nil (cell ts i sid));
}

pub Filled-join :
    (plan : Plan) (n : ℕ) (f : ℕ → LoopState) (lo w w' : ℕ) (a b c : PimTensors)
    → Filled plan n f lo w a b
    → Filled plan n f (lo + w) w' b c
    → Filled plan n f lo (w + w') a c
Filled-join plan n f lo w w' a b c h k = record {
  shaped = k.shaped;
  cells = λ i sid p e l.
      k.cells i sid p e l
      ∙ ap (λ xs. xs ++ pushed (hit plan (lo + w) w' sid) (f sid) p) (h.cells i sid p e l)
      ∙ pushed_join (hit plan lo w sid) (hit plan (lo + w) w' sid) (hit plan lo (w + w') sid)
          (f sid) p (cell a i sid) (range_join lo w w' sid (kept plan sid))
          (range_apart lo w w' sid (kept plan sid));
}
