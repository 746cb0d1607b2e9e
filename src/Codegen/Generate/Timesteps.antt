-- ===== src/Codegen/Generate/Timesteps.antt =====
-- The time steps that the loops of simulator/src/pim_codegen/impl/fimdram.cpp simulate.
use kvc_pim.Base.{
  ℕ, get_elem?, if◌then◌else◌, length, ltb, zero, suc, ◌+◌, ◌*◌, ◌≤◌, ◌<◌, ◌≡◌, sym, ap, ◌∙◌, none,
  some, List, [], ◌∷◌, arith, none≢some, lt→ltb, ◌-◌, ◌/◌, subst, false, if-cases, ltb-false,
}
use native.Mathlib.Nat.{suc-mul, div-add-mod', mod-lt, mul_comm}
use kvc_pim.Codegen.Generate.{tid_step, timesteps, timesteps_from}

not_below : (a b : ℕ) → b ≤ a → ltb a b ≡ false
not_below a b h = ground arith

get_elem?-timesteps_from :
    (rounds tid step steps j : ℕ)
    → 0 < step
    → steps ≤ tid + rounds
    → get_elem? (timesteps_from rounds tid step steps) j
      ≡ (if ltb (tid + j * step) steps then some (tid + j * step) else none)
unfolding timesteps_from
get_elem?-timesteps_from zero tid step steps j s le = sym (
    ap (λ b. if b then some (tid + j * step) else none)
      (not_below (tid + j * step) steps (omega arith)))
get_elem?-timesteps_from (suc rounds) tid step steps zero s le =
    let e : tid + 0 * step ≡ tid = omega arith in
    subst
      (λ k.
        get_elem? (timesteps_from (suc rounds) tid step steps) 0
        ≡ (if ltb k steps then some k else none))
      (sym e)
      (if-cases (λ xs. get_elem? xs 0 ≡ (if ltb tid steps then some tid else none)) (ltb tid steps)
        _ _ (λ t. sym (ap (λ b. if b then some tid else none) t))
        (λ f. sym (ap (λ b. if b then some tid else none) f)))
get_elem?-timesteps_from (suc rounds) tid step steps (suc j) s le =
    let e : tid + step + j * step ≡ tid + suc j * step = rw suc-mul (omega arith) in
    if-cases
      (λ xs.
        get_elem? xs (suc j)
        ≡ (if ltb (tid + suc j * step) steps then some (tid + suc j * step) else none))
      (ltb tid steps) _ _
      (λ t.
        get_elem?-timesteps_from rounds (tid + step) step steps j s (omega arith)
        ∙ ap (λ k. if ltb k steps then some k else none) e)
      (λ f. sym (
        ap (λ b. if b then some (tid + suc j * step) else none)
          (not_below (tid + suc j * step) steps (omega (arith, e, ltb-false tid steps f)))))

tid_step-pos : (sim_timesteps temporal_steps : ℕ) → 0 < tid_step sim_timesteps temporal_steps
unfolding tid_step
tid_step-pos sim_timesteps temporal_steps = ground arith

-- The loop over the time steps ends: its values are the multiples of the step below the number of time
-- steps, all of them and in order, and no others.
pub get_elem?-timesteps :
    (sim_timesteps temporal_steps j : ℕ)
    → get_elem? (timesteps sim_timesteps temporal_steps) j ≡ (
        if ltb (j * tid_step sim_timesteps temporal_steps) temporal_steps
        then some (j * tid_step sim_timesteps temporal_steps)
        else none)
unfolding timesteps
get_elem?-timesteps sim steps j =
    get_elem?-timesteps_from steps 0 (tid_step sim steps) steps j (tid_step-pos sim steps)
      (omega arith)
    ∙ ap (λ k. if ltb k steps then some k else none) {x = 0 + j * tid_step sim steps} (omega arith)

past_end :
    (sim_timesteps temporal_steps : ℕ)
    → 0 < sim_timesteps
    → ltb (sim_timesteps * tid_step sim_timesteps temporal_steps) temporal_steps ≡ false
unfolding tid_step
past_end sim steps h =
    let q : ℕ = (steps - 1) / sim in
    let e : tid_step sim steps ≡ q + 1 = ap (λ b. if b then q + 1 else 1) (lt→ltb 0 sim h) in
    ap (λ k. ltb (sim * k) steps) e
    ∙ not_below (sim * (q + 1)) steps
        (omega (arith, div-add-mod' (steps - 1) sim, mod-lt (steps - 1) h, mul_comm q sim))

length_of_none : {A : Type 0} (xs : List A) (i : ℕ) → get_elem? xs i ≡ none → length xs ≤ i
length_of_none [] i e = omega arith
length_of_none (x ∷ xs) zero e = absurd (none≢some (sym e))
length_of_none (x ∷ xs) (suc i) e = omega (arith, length_of_none xs i e)

-- Where a number of simulated time steps is configured, the loop simulates at most that many.
pub length-timesteps :
    (sim_timesteps temporal_steps : ℕ)
    → 0 < sim_timesteps
    → length (timesteps sim_timesteps temporal_steps) ≤ sim_timesteps
length-timesteps sim steps h = length_of_none (timesteps sim steps) sim (
    get_elem?-timesteps sim steps sim
    ∙ ap (λ b. if b then some (sim * tid_step sim steps) else none) (past_end sim steps h))
