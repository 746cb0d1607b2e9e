-- ===== src/Layout/Infer/Levels.antt =====
-- One level of the search of simulator/src/pim_codegen/layout.h: where the search of the inner levels
-- fills its range with the layout in closed form, so does the search of a parallel or a sequential level.
use kvc_pim.Base.{
  ℕ, ◌+◌, ◌-◌, ◌*◌, ◌≤◌, ◌<◌, ◌≡◌, ap, ◌∙◌, Option, none, some, List, ◌∷◌, arith, sym, subst,
}
use native.Mathlib.Nat.{mul_assoc, mul-pos}
use mathlib.Core.Path.{ap₂, subst₂}
use kvc_pim.Layout.{Level, parallel}
use kvc_pim.Layout.Infer.{
  Vars, Plan, PimTensors, recursive_infer, open_level, remaining_elems, enter, each_index,
  remaining_loop,
}
use kvc_pim.DataSpace.{LoopState}
use kvc_pim.Layout.Infer.Element.{Filled, Indexed, element, width, Shaped, enter_level}
use kvc_pim.Layout.Infer.Restore.{recursive_infer-vars}
use kvc_pim.Layout.Infer.Loop.{each_index-fixed, each_index-free}
use kvc_pim.Layout.Infer.Opened.{
  base_parallel, width_parallel, base_sequential, Indexed-AllPositive, elems_parallel, room,
  width_sequential, Filled-agree, elems_sequential, digits,
}

module _ (plan : Plan) (n : ℕ) (size : LoopState) where
  abbrev pub outcome : List Level → List (Option ℕ) → Vars → PimTensors → PimTensors
  outcome levels index v ts =
      (recursive_infer plan n size levels index (record { vars = v; pim_tensors = ts })).pim_tensors

  -- What the search fills, from its first spatial element on.
  abbrev pub Fills : List Level → List (Option ℕ) → Vars → PimTensors → Type 0
  Fills levels index v ts =
      Filled plan n (λ sid. element plan n size levels index (sid - v.spatial_id) v) v.spatial_id
        (width levels) ts (outcome levels index v ts)

  abbrev pub Ready : List Level → Vars → PimTensors → Type 0
  Ready levels v ts =
      (0 < v.base_spatial)
      × (n ≡ v.base_spatial * width levels)
      × (v.spatial_id + width levels ≤ n)
      × Shaped n plan.projections ts

  opened_parallel :
      (l : Level) (levels : List Level) (v : Vars) (ts : PimTensors)
      → l.ptag ≡ parallel
      → 0 < l.dim
      → Ready (l ∷ levels) v ts
      → (0 < (open_level l v).base_spatial)
        × (n ≡ (open_level l v).base_spatial * width levels)
        × (remaining_elems n l (open_level l v) ≡ width levels)
  opened_parallel l levels v ts p d r =
      let base : (open_level l v).base_spatial ≡ v.base_spatial * l.dim = base_parallel l v p in
      let total : n ≡ v.base_spatial * l.dim * width levels =
        r.1
        ∙ ap (λ m. v.base_spatial * m) (width_parallel l levels p)
        ∙ sym (mul_assoc v.base_spatial l.dim (width levels)) in
      let total' : n ≡ (open_level l v).base_spatial * width levels =
        total ∙ ap (λ m. m * width levels) (sym base) in
      let some_base : 0 < (open_level l v).base_spatial =
        subst (λ m. 0 < m) (sym base) (mul-pos r.0 d) in
      let elems : remaining_elems n l (open_level l v) ≡ width levels =
        elems_parallel n l levels (open_level l v) p some_base total' in
      (some_base, total', elems)

  inner_parallel :
      (l : Level) (levels : List Level) (index : List (Option ℕ)) (v : Vars) (ts : PimTensors)
      → Indexed (l ∷ levels) (none ∷ index)
      → Ready (l ∷ levels) v ts
      → ((w : Vars) (us : PimTensors) → Ready levels w us → Fills levels index w us)
      → (i : ℕ) (us : PimTensors) → i < l.dim
      → Shaped n plan.projections us
      → Filled plan n
          (λ sid. element plan n size (l ∷ levels) (none ∷ index) (sid - v.spatial_id) v)
          (v.spatial_id + i * remaining_elems n l (open_level l v))
          (remaining_elems n l (open_level l v))
          us
          (outcome levels index (enter_level plan n size l i v) us)
  unfolding enter open_level
  inner_parallel l levels index v ts ix r inner i us lt sh =
      let opened = opened_parallel l levels v ts ix.0 ix.1 r in
      let elems = opened.2 in
      let widths = width_parallel l levels ix.0 in
      let entered : Vars = enter_level plan n size l i v in
      let first : v.spatial_id + i * remaining_elems n l (open_level l v)
          ≡ v.spatial_id + i * width levels =
        ap (λ m. v.spatial_id + i * m) elems in
      let le = room i l.dim (width levels) v.spatial_id n lt (omega arith) in
      subst
        (λ k.
          Filled plan n
            (λ sid. element plan n size (l ∷ levels) (none ∷ index) (sid - v.spatial_id) v)
            (v.spatial_id + i * remaining_elems n l (open_level l v)) k us
            (outcome levels index entered us))
        (sym elems)
        (Filled-agree plan n _ _ (v.spatial_id + i * remaining_elems n l (open_level l v))
          (width levels) us _
          (λ sid a b.
            let d = digits i (width levels) v.spatial_id sid (omega arith) (omega arith) in
            ap₂ (λ j o. element plan n size levels index o (enter_level plan n size l j v))
              (sym d.0) (ap (λ m. sid - m) first ∙ sym d.1))
          (inner entered us (opened.0, opened.1, omega arith, sh)))

  inner_sequential :
      (l : Level) (levels : List Level) (fixed : ℕ) (index : List (Option ℕ)) (v : Vars)
      (ts : PimTensors)
      → Indexed (l ∷ levels) (some fixed ∷ index)
      → Ready (l ∷ levels) v ts
      → ((w : Vars) (us : PimTensors) → Ready levels w us → Fills levels index w us)
      → (us : PimTensors) → Shaped n plan.projections us
      → Filled plan n
          (λ sid. element plan n size (l ∷ levels) (some fixed ∷ index) (sid - v.spatial_id) v)
          v.spatial_id
          (width (l ∷ levels))
          us
          (outcome levels index (enter_level plan n size l fixed v) us)
  unfolding enter open_level
  inner_sequential l levels fixed index v ts ix r inner us sh =
      let base : (open_level l v).base_spatial ≡ v.base_spatial = base_sequential l v ix.0 in
      let widths : width (l ∷ levels) ≡ width levels = width_sequential l levels ix.0 in
      let total : n ≡ (open_level l v).base_spatial * width levels =
        r.1 ∙ ap (λ m. v.base_spatial * m) widths ∙ ap (λ m. m * width levels) (sym base) in
      let elems : remaining_elems n l (open_level l v) ≡ 0 =
        elems_sequential n l (open_level l v) ix.0 in
      let entered : Vars = enter_level plan n size l fixed v in
      let first : v.spatial_id + fixed * remaining_elems n l (open_level l v) ≡ v.spatial_id =
        ap (λ m. v.spatial_id + fixed * m) elems ∙ omega arith in
      let filled : Fills levels index entered us =
        inner entered us (subst (λ m. 0 < m) (sym base) r.0, total, omega arith, sh) in
      subst
        (λ k.
          Filled plan n (λ sid. element plan n size levels index (sid - v.spatial_id) entered)
            v.spatial_id k us (outcome levels index entered us))
        (sym widths)
        (subst
          (λ k.
            Filled plan n (λ sid. element plan n size levels index (sid - k) entered) k
              (width levels) us (outcome levels index entered us))
          first filled)

  pub Fills-parallel :
      (l : Level) (levels : List Level) (index : List (Option ℕ)) (v : Vars) (ts : PimTensors)
      → Indexed (l ∷ levels) (none ∷ index)
      → Ready (l ∷ levels) v ts
      → ((w : Vars) (us : PimTensors) → Ready levels w us → Fills levels index w us)
      → Filled plan n
          (λ sid. element plan n size (l ∷ levels) (none ∷ index) (sid - v.spatial_id) v)
          v.spatial_id
          (width (l ∷ levels))
          ts
          (each_index
            (recursive_infer plan n size levels index)
            l.loop
            none
            (remaining_elems n l (open_level l v))
            (remaining_loop plan size l (open_level l v))
            l.dim
            0
            (record { vars = open_level l v; pim_tensors = ts })).pim_tensors
  Fills-parallel l levels index v ts ix r inner =
      let elems : ℕ = remaining_elems n l (open_level l v) in
      let opened = opened_parallel l levels v ts ix.0 ix.1 r in
      subst₂
        (λ lo w.
          Filled plan n
            (λ sid. element plan n size (l ∷ levels) (none ∷ index) (sid - v.spatial_id) v) lo w ts
            (each_index (recursive_infer plan n size levels index) l.loop none elems
              (remaining_loop plan size l (open_level l v)) l.dim 0
              (record { vars = open_level l v; pim_tensors = ts })).pim_tensors)
        {y = v.spatial_id} (omega arith)
        (ap (λ m. l.dim * m) opened.2 ∙ sym (width_parallel l levels ix.0))
        (each_index-free plan n (recursive_infer plan n size levels index) l.loop elems
          (remaining_loop plan size l (open_level l v)) (open_level l v)
          (λ sid. element plan n size (l ∷ levels) (none ∷ index) (sid - v.spatial_id) v)
          v.spatial_id l.dim 0 l.dim ts
          (λ t.
            recursive_infer-vars plan n size levels index t (Indexed-AllPositive levels index ix.2))
          (λ i us lt sh. inner_parallel l levels index v ts ix r inner i us lt sh) (omega arith)
          r.3)

  pub Fills-sequential :
      (l : Level) (levels : List Level) (fixed : ℕ) (index : List (Option ℕ)) (v : Vars)
      (ts : PimTensors)
      → Indexed (l ∷ levels) (some fixed ∷ index)
      → Ready (l ∷ levels) v ts
      → ((w : Vars) (us : PimTensors) → Ready levels w us → Fills levels index w us)
      → Filled plan n
          (λ sid. element plan n size (l ∷ levels) (some fixed ∷ index) (sid - v.spatial_id) v)
          v.spatial_id
          (width (l ∷ levels))
          ts
          (each_index
            (recursive_infer plan n size levels index)
            l.loop
            (some fixed)
            (remaining_elems n l (open_level l v))
            (remaining_loop plan size l (open_level l v))
            l.dim
            0
            (record { vars = open_level l v; pim_tensors = ts })).pim_tensors
  Fills-sequential l levels fixed index v ts ix r inner =
      each_index-fixed plan n (recursive_infer plan n size levels index) l.loop
        (remaining_elems n l (open_level l v)) (remaining_loop plan size l (open_level l v))
        (open_level l v)
        (λ sid. element plan n size (l ∷ levels) (some fixed ∷ index) (sid - v.spatial_id) v)
        v.spatial_id (width (l ∷ levels)) fixed l.dim 0 ts
        (λ t.
          recursive_infer-vars plan n size levels index t (Indexed-AllPositive levels index ix.2))
        (λ us sh. inner_sequential l levels fixed index v ts ix r inner us sh) (omega arith)
        (omega (arith, ix.1)) r.3
