-- ===== src/Policy/Locality/Candidates.antt =====
-- The candidate banks of `SmartLocalityPolicy::allocate_kv_cache_bank`
-- (simulator/src/pim_codegen/kv_cache_policy.h, steps 1 and 2).
use kvc_pim.Base.{
  ℕ, Bool-cases, get_or, ◌==◌, zero, suc, ◌+◌, ◌≤◌, ◌<◌, ◌≡◌, ◌⊎◌, inl, inr, List, [], ◌∷◌, arith,
  ==_iff, is_empty, refl, sym, ap, ◌∙◌, true, false,
}
use native.Mathlib.Decide.{ℕ_discrete}
use kvc_pim.Policy.Locality.{Locality, weight_free_banks, all_banks, candidate_banks}

-- The bank stands in the list.
abbrev pub Has : ℕ → List ℕ → Type 0
Has b [] = ⊥
Has b (x ∷ xs) = (x ≡ b) ⊎ Has b xs

pub weight_free_banks_complete :
    (weights : List ℕ) (rounds bank b : ℕ)
    → bank ≤ b
    → b < bank + rounds
    → get_or weights b 0 ≡ 0
    → Has b (weight_free_banks weights rounds bank)
unfolding weight_free_banks
weight_free_banks_complete weights zero bank b lo hi free = absurd (omega arith)
weight_free_banks_complete weights (suc rounds) bank b lo hi free = elim (ℕ_discrete bank b) [
  | yes e ↦
      rw ((==_iff (get_or weights bank 0) 0).1 (ap (λ k. get_or weights k 0) e ∙ free)) (inl e)
  | no ne ↦
      let rest =
        weight_free_banks_complete weights rounds (bank + 1) b (omega arith) (omega arith) free in
      elim (Bool-cases (get_or weights bank 0 == 0)) [ inl t ↦ rw t (inr rest) | inr f ↦ rw f rest ]
]

pub weight_free_banks_sound :
    (weights : List ℕ) (rounds bank end b : ℕ)
    → bank + rounds ≡ end
    → Has b (weight_free_banks weights rounds bank)
    → (b < end) × (get_or weights b 0 ≡ 0)
unfolding weight_free_banks
weight_free_banks_sound weights zero bank end b e h = absurd h
weight_free_banks_sound weights (suc rounds) bank end b e h =
    elim (Bool-cases (get_or weights bank 0 == 0)) [
      | inl t ↦
          let h' : (bank ≡ b) ⊎ Has b (weight_free_banks weights rounds (bank + 1)) = rw t at h in
          elim h' [
            | inl p ↦ (
              omega arith,
              ap (λ k. get_or weights k 0) (sym p) ∙ (==_iff (get_or weights bank 0) 0).0 t,
            )
            | inr q ↦ weight_free_banks_sound weights rounds (bank + 1) end b (omega arith) q
          ]
      | inr f ↦ weight_free_banks_sound weights rounds (bank + 1) end b (omega arith) (rw f at h)
    ]

pub all_banks_complete :
    (rounds bank b : ℕ) → bank ≤ b → b < bank + rounds → Has b (all_banks rounds bank)
unfolding all_banks
all_banks_complete zero bank b lo hi = absurd (omega arith)
all_banks_complete (suc rounds) bank b lo hi = elim (ℕ_discrete bank b) [
  | yes e ↦ inl e
  | no ne ↦ inr (all_banks_complete rounds (bank + 1) b (omega arith) (omega arith))
]

pub all_banks_sound :
    (rounds bank end b : ℕ) → bank + rounds ≡ end → Has b (all_banks rounds bank) → b < end
unfolding all_banks
all_banks_sound zero bank end b e h = absurd h
all_banks_sound (suc rounds) bank end b e (inl p) = omega arith
all_banks_sound (suc rounds) bank end b e (inr h) =
    all_banks_sound rounds (bank + 1) end b (omega arith) h

-- What the candidates of a state are: the banks without weights, if there is one, and else all banks.
pub candidate_banks_of_free :
    (s : Locality) (b : ℕ)
    → b < s.num_banks
    → get_or s.static_weight_count b 0 ≡ 0
    → candidate_banks s ≡ weight_free_banks s.static_weight_count s.num_banks 0
unfolding candidate_banks
candidate_banks_of_free s b h free =
    elim (Bool-cases (is_empty (weight_free_banks s.static_weight_count s.num_banks 0))) [
      | inl e ↦ absurd (
          none_in (weight_free_banks s.static_weight_count s.num_banks 0) e (
            weight_free_banks_complete s.static_weight_count s.num_banks 0 b (omega arith)
              (omega arith) free))
      | inr e ↦ rw e
    ]
  where
    none_in : (xs : List ℕ) → is_empty xs ≡ true → Has b xs → ⊥
    none_in [] e h = h
    none_in (x ∷ xs) e h = cc

-- Every candidate is a bank in range.
pub candidate_banks-lt : (s : Locality) (b : ℕ) → Has b (candidate_banks s) → b < s.num_banks
unfolding candidate_banks
candidate_banks-lt s b h =
    elim (Bool-cases (is_empty (weight_free_banks s.static_weight_count s.num_banks 0))) [
      | inl e ↦ all_banks_sound s.num_banks 0 s.num_banks b (omega arith) (rw e at h)
      | inr e ↦
          (weight_free_banks_sound s.static_weight_count s.num_banks 0 s.num_banks b (omega arith)
            (rw e at h)).0
    ]

-- There is a candidate if there is a bank.
pub candidate_banks-nonempty :
    (s : Locality) → 0 < s.num_banks → is_empty (candidate_banks s) ≡ false
unfolding candidate_banks
candidate_banks-nonempty s h =
    elim (Bool-cases (is_empty (weight_free_banks s.static_weight_count s.num_banks 0))) [
      | inl e ↦ rw e (some_bank s.num_banks h)
      | inr e ↦ rw e e
    ]
  where
    some_bank : (n : ℕ) → 0 < n → is_empty (all_banks n 0) ≡ false
    some_bank zero h = absurd (omega arith)
    some_bank (suc n) h = refl
