-- ===== src/Layout/Infer/Loop.antt =====
-- The loop over the indices of one level in simulator/src/pim_codegen/layout.h, around a search of the
-- inner levels that fills a range of `w` spatial elements.
use kvc_pim.Base.{
  ℕ, if◌then◌else◌, zero, suc, ◌+◌, ◌*◌, ◌≤◌, ◌<◌, ◌≡◌, ap, ◌∙◌, true, false, Option, none, some,
  arith, refl, sym, subst, ◌≢◌,
}
use native.Mathlib.Nat.{suc-mul}
use native.Mathlib.Decide.{ℕ_discrete}
use kvc_pim.Layout.Infer.{
  Vars, Plan, Search, String, PimTensors, each_index, LoopState, enter, skips, leave,
}
use kvc_pim.Layout.Infer.Element.{Filled, Shaped, hit, Filled-none, Filled-join}
use kvc_pim.Layout.Infer.Restore.{leave-enter}

skips_other : (idx fixed : ℕ) → idx ≢ fixed → skips (some fixed) idx ≡ true
skips_other idx fixed h = ground arith

skips_self : (idx fixed : ℕ) → idx ≡ fixed → skips (some fixed) idx ≡ false
skips_self idx fixed h = ground arith

empty_range : (plan : Plan) (lo w sid : ℕ) → w ≡ 0 → hit plan lo w sid ≡ false
empty_range plan lo w sid h = ground arith

more_rounds : (rounds elems : ℕ) → elems + rounds * elems ≡ suc rounds * elems
more_rounds rounds elems = rw suc-mul (omega arith)

next_range : (lo idx elems : ℕ) → lo + (idx + 1) * elems ≡ lo + idx * elems + elems
next_range lo idx elems = omega arith

module _ (plan : Plan) (n : ℕ) (infer : Search → Search) (name : String) (elems loop : ℕ)
    (before : Vars) where
  abbrev pub entered : ℕ → PimTensors → Search
  entered idx ts = record { vars = enter name elems loop idx before; pim_tensors = ts }

  abbrev outside : PimTensors → Search
  outside ts = record { vars = before; pim_tensors = ts }

  each_index-visit :
      (fixed : Option ℕ) (rounds idx : ℕ) (ts : PimTensors)
      → ((s : Search) → (infer s).vars ≡ s.vars)
      → skips fixed idx ≡ false
      → each_index infer name fixed elems loop (suc rounds) idx (outside ts)
        ≡ each_index infer name fixed elems loop rounds
            (idx + 1)
            (outside (infer (entered idx ts)).pim_tensors)
  unfolding each_index
  each_index-visit fixed rounds idx ts h e =
      ap (each_index infer name fixed elems loop rounds (idx + 1)) (
        ap
          (λ b. if b then outside ts else record {
            vars = leave name elems loop idx (infer (entered idx ts)).vars;
            pim_tensors = (infer (entered idx ts)).pim_tensors;
          })
          e
        ∙ ap (λ v. record { vars = v; pim_tensors = (infer (entered idx ts)).pim_tensors })
            (ap (leave name elems loop idx) (h (entered idx ts))
              ∙ leave-enter name elems loop idx before))

  each_index-skip :
      (fixed : Option ℕ) (rounds idx : ℕ) (ts : PimTensors)
      → skips fixed idx ≡ true
      → each_index infer name fixed elems loop (suc rounds) idx (outside ts)
        ≡ each_index infer name fixed elems loop rounds (idx + 1) (outside ts)
  unfolding each_index
  each_index-skip fixed rounds idx ts e =
      ap
        (λ b. each_index infer name fixed elems loop rounds (idx + 1) (
          if b then outside ts else record {
            vars = leave name elems loop idx (infer (entered idx ts)).vars;
            pim_tensors = (infer (entered idx ts)).pim_tensors;
          }))
        e

  each_index-past :
      (fixed rounds idx : ℕ) (ts : PimTensors)
      → fixed < idx
      → each_index infer name (some fixed) elems loop rounds idx (outside ts) ≡ outside ts
  unfolding each_index
  each_index-past fixed zero idx ts h = refl
  each_index-past fixed (suc rounds) idx ts h =
      each_index-skip (some fixed) rounds idx ts (skips_other idx fixed (λ e. omega arith))
      ∙ each_index-past fixed rounds (idx + 1) ts (omega arith)

  -- A free level of `elems` elements for each index.
  pub each_index-free :
      (f : ℕ → LoopState) (lo rounds idx dim : ℕ) (ts : PimTensors)
      → ((s : Search) → (infer s).vars ≡ s.vars)
      → ((i : ℕ) (us : PimTensors)
          → i < dim
          → Shaped n plan.projections us
          → Filled plan n f (lo + i * elems) elems us (infer (entered i us)).pim_tensors)
      → idx + rounds ≤ dim
      → Shaped n plan.projections ts
      → Filled plan n f
          (lo + idx * elems)
          (rounds * elems)
          ts
          (each_index infer name none elems loop rounds idx (outside ts)).pim_tensors
  unfolding each_index
  each_index-free f lo zero idx dim ts v h le sh =
      Filled-none plan n f (lo + idx * elems) (0 * elems) ts sh
        (λ sid. empty_range plan (lo + idx * elems) (0 * elems) sid (omega arith))
  each_index-free f lo (suc rounds) idx dim ts v h le sh =
      let one = h idx ts (omega arith) sh in
      let us : PimTensors = (infer (entered idx ts)).pim_tensors in
      let rest = each_index-free f lo rounds (idx + 1) dim us v h (omega arith) one.shaped in
      subst
        (λ (s : Search). Filled plan n f (lo + idx * elems) (suc rounds * elems) ts s.pim_tensors)
        (sym (each_index-visit none rounds idx ts v refl))
        (subst
          (λ m.
            Filled plan n f (lo + idx * elems) m ts
              (each_index infer name none elems loop rounds (idx + 1) (outside us)).pim_tensors)
          (more_rounds rounds elems)
          (Filled-join plan n f (lo + idx * elems) elems (rounds * elems) ts us _ one (
            subst
              (λ k.
                Filled plan n f k (rounds * elems) us
                  (each_index infer name none elems loop rounds (idx + 1) (outside us)).pim_tensors)
              (next_range lo idx elems) rest)))

  -- A fixed level: only its index is visited.
  pub each_index-fixed :
      (f : ℕ → LoopState) (lo w fixed rounds idx : ℕ) (ts : PimTensors)
      → ((s : Search) → (infer s).vars ≡ s.vars)
      → ((us : PimTensors)
          → Shaped n plan.projections us
          → Filled plan n f lo w us (infer (entered fixed us)).pim_tensors)
      → idx ≤ fixed
      → fixed < idx + rounds
      → Shaped n plan.projections ts
      → Filled plan n f lo w ts
          (each_index infer name (some fixed) elems loop rounds idx (outside ts)).pim_tensors
  each_index-fixed f lo w fixed zero idx ts v h le lt sh = absurd (omega arith)
  each_index-fixed f lo w fixed (suc rounds) idx ts v h le lt sh = elim (ℕ_discrete idx fixed) [
    | yes e ↦
        subst (λ (s : Search). Filled plan n f lo w ts s.pim_tensors)
          (sym (
            each_index-visit (some fixed) rounds idx ts v (skips_self idx fixed e)
            ∙ each_index-past fixed rounds (idx + 1) _ (omega arith)))
          (subst (λ i. Filled plan n f lo w ts (infer (entered i ts)).pim_tensors) (sym e)
            (h ts sh))
    | no ne ↦
        subst (λ (s : Search). Filled plan n f lo w ts s.pim_tensors)
          (sym (each_index-skip (some fixed) rounds idx ts (skips_other idx fixed ne)))
          (each_index-fixed f lo w fixed rounds (idx + 1) ts v h (omega arith) (omega arith) sh)
  ]
