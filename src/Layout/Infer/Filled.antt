-- ===== src/Layout/Infer/Filled.antt =====
-- The search of simulator/src/pim_codegen/layout.h against the layout in closed form: it pushes one
-- data space of each tensor to each spatial element.
use kvc_pim.Base.{
  ℕ, get_elem?, get_or, get_or-set_ne, if◌then◌else◌, length, length-set, set, ◌==◌, zero, suc, ◌<◌,
  ◌≡◌, ◌∙◌, some, List, [], ◌∷◌, ◌++◌, arith, ==_iff, get_or-set_self, leb, sym, ap, subst, true,
  false, ◌&&◌, append-nil, true≢false, if-cases,
}
use kvc_pim.Layout.Infer.{
  Vars, push_data_spaces, DataSpaceIdx, LoopState, Projection, PimTensors, calc_data_space, Plan,
  leaves_bank,
}
use kvc_pim.Layout.Infer.Element.{Shaped, cell, pushed, hit, Filled}

push-Shaped :
    (n sid : ℕ) (state : LoopState) (projections : List Projection) (ts : PimTensors)
    → Shaped n projections ts
    → Shaped n projections (push_data_spaces state sid projections ts)
unfolding push_data_spaces
push-Shaped n sid state [] [] h = h
push-Shaped n sid state [] (t ∷ ts) h = absurd h
push-Shaped n sid state (p ∷ projections) [] h = absurd h
push-Shaped n sid state (p ∷ projections) (t ∷ ts) h = (
  length-set t sid (get_or t sid [] ++ (calc_data_space state p ∷ [])) ∙ h.0,
  push-Shaped n sid state projections ts h.1,
)

set_cell :
    (t : List (List DataSpaceIdx)) (at sid : ℕ) (d : DataSpaceIdx)
    → at < length t
    → get_or (set t at (get_or t at [] ++ (d ∷ []))) sid []
      ≡ get_or t sid [] ++ (if at == sid then d ∷ [] else [])
set_cell t at sid d h =
    if-cases (λ xs. get_or (set t at (get_or t at [] ++ (d ∷ []))) sid [] ≡ get_or t sid [] ++ xs)
      (at == sid) (d ∷ []) []
      (λ e.
        subst (λ k. get_or (set t at (get_or t at [] ++ (d ∷ []))) k [] ≡ get_or t k [] ++ (d ∷ []))
          ((==_iff at sid).0 e) (get_or-set_self t at _ [] h))
      (λ e.
        get_or-set_ne t at sid _ [] (λ q. true≢false (sym ((==_iff at sid).1 q) ∙ e))
        ∙ sym (append-nil (get_or t sid [])))

cell_pushed :
    (t : List (List DataSpaceIdx)) (at sid : ℕ) (state : LoopState) (q p : Projection)
    → some q ≡ some p
    → get_or t sid [] ++ (if at == sid then calc_data_space state q ∷ [] else [])
      ≡ get_or t sid [] ++ pushed (at == sid) state p
cell_pushed t at sid state q p e = cc

cell-push :
    (n at : ℕ) (state : LoopState) (projections : List Projection) (ts : PimTensors) (i sid : ℕ)
    (p : Projection)
    → Shaped n projections ts
    → at < n
    → get_elem? projections i ≡ some p
    → cell (push_data_spaces state at projections ts) i sid
      ≡ cell ts i sid ++ pushed (at == sid) state p
unfolding push_data_spaces
cell-push n at state [] ts i sid p h l e = cc
cell-push n at state (q ∷ projections) [] i sid p h l e = absurd h
cell-push n at state (q ∷ projections) (t ∷ ts) zero sid p h l e =
    set_cell t at sid (calc_data_space state q) (omega (arith, h.0))
    ∙ cell_pushed t at sid state q p e
cell-push n at state (q ∷ projections) (t ∷ ts) (suc i) sid p h l e =
    cell-push n at state projections ts i sid p h.1 l e

pub hit_one :
    (plan : Plan) (at sid : ℕ)
    → (plan.single_bank_opt && leb plan.spatial_cols at) ≡ false
    → (at == sid) ≡ hit plan at 1 sid
hit_one plan at sid b = ground arith

-- Where the search returns at once, no element of the range belongs to the first bank.
pub not_kept :
    (plan : Plan) (lo w sid : ℕ)
    → (plan.single_bank_opt && leb plan.spatial_cols lo) ≡ true
    → hit plan lo w sid ≡ false
not_kept plan lo w sid b = ground arith

-- At the innermost level: the one element of the range.
pub push-Filled :
    (plan : Plan) (n : ℕ) (v : Vars) (ts : PimTensors)
    → Shaped n plan.projections ts
    → v.spatial_id < n
    → leaves_bank plan v ≡ false
    → Filled plan n
        (λ sid. v.loop_state)
        v.spatial_id
        1
        ts
        (push_data_spaces v.loop_state v.spatial_id plan.projections ts)
unfolding leaves_bank
push-Filled plan n v ts h l b = record {
  shaped = push-Shaped n v.spatial_id v.loop_state plan.projections ts h;
  cells = λ i sid p e m.
      cell-push n v.spatial_id v.loop_state plan.projections ts i sid p h l e
      ∙ ap (λ b. cell ts i sid ++ pushed b v.loop_state p) (hit_one plan v.spatial_id sid b);
}
