-- ===== src/Layout/Infer/Whole.antt =====
-- The whole search of simulator/src/pim_codegen/layout.h: `recursive_infer` fills the spatial elements
-- of its range with the layout in closed form.
use kvc_pim.Base.{ℕ, ◌-◌, Option, none, some, List, [], ◌∷◌, arith, if-cases}
use kvc_pim.Layout.{Level}
use kvc_pim.Layout.Infer.{Search, Vars, Plan, recursive_infer, leaves_bank, PimTensors}
use kvc_pim.DataSpace.{LoopState}
use kvc_pim.Layout.Infer.Element.{Filled, Indexed, Filled-none, element, width}
use kvc_pim.Layout.Infer.Levels.{Fills, Ready, Fills-parallel, Fills-sequential}
use kvc_pim.Layout.Infer.Filled.{not_kept, push-Filled}

module _ (plan : Plan) (n : ℕ) (size : LoopState) where
  pub recursive_infer-Filled :
      (levels : List Level) (index : List (Option ℕ)) (v : Vars) (ts : PimTensors)
      → Indexed levels index
      → Ready plan n size levels v ts
      → Fills plan n size levels index v ts
  unfolding recursive_infer leaves_bank
  recursive_infer-Filled [] index v ts ix r =
      if-cases (λ (s : Search). Filled plan n (λ sid. v.loop_state) v.spatial_id 1 ts s.pim_tensors)
        (leaves_bank plan v) _ _
        (λ t.
          Filled-none plan n (λ sid. v.loop_state) v.spatial_id 1 ts r.3
            (λ sid. not_kept plan v.spatial_id 1 sid t))
        (λ t. push-Filled plan n v ts r.3 (omega arith) t)
  recursive_infer-Filled (l ∷ levels) [] v ts ix r = absurd ix
  recursive_infer-Filled (l ∷ levels) (none ∷ index) v ts ix r =
      if-cases
        (λ (s : Search).
          Filled plan n
            (λ sid. element plan n size (l ∷ levels) (none ∷ index) (sid - v.spatial_id) v)
            v.spatial_id (width (l ∷ levels)) ts s.pim_tensors)
        (leaves_bank plan v) _ _
        (λ t.
          Filled-none plan n _ v.spatial_id (width (l ∷ levels)) ts r.3
            (λ sid. not_kept plan v.spatial_id (width (l ∷ levels)) sid t))
        (λ t.
          Fills-parallel plan n size l levels index v ts ix r
            (λ w us. recursive_infer-Filled levels index w us ix.2))
  recursive_infer-Filled (l ∷ levels) (some fixed ∷ index) v ts ix r =
      if-cases
        (λ (s : Search).
          Filled plan n
            (λ sid. element plan n size (l ∷ levels) (some fixed ∷ index) (sid - v.spatial_id) v)
            v.spatial_id (width (l ∷ levels)) ts s.pim_tensors)
        (leaves_bank plan v) _ _
        (λ t.
          Filled-none plan n _ v.spatial_id (width (l ∷ levels)) ts r.3
            (λ sid. not_kept plan v.spatial_id (width (l ∷ levels)) sid t))
        (λ t.
          Fills-sequential plan n size l levels fixed index v ts ix r
            (λ w us. recursive_infer-Filled levels index w us ix.2))
