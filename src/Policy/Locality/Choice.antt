-- ===== src/Policy/Locality/Choice.antt =====
-- The scoring loop of `SmartLocalityPolicy::allocate_kv_cache_bank`
-- (simulator/src/pim_codegen/kv_cache_policy.h, step 3) finds a candidate of least score.
use kvc_pim.Base.{
  ℕ, Bool-cases, get_or, is_empty, ltb_ℤ, ℤ, ◌≤ℤ◌, ◌<◌, ◌≡◌, refl, inl, inr, true, false, none,
  some, List, [], ◌∷◌, arith, sym, subst, Option,
}
use kvc_pim.Policy.Locality.{Locality, candidate_banks, score, best_of, choose}
use kvc_pim.Policy.Locality.Candidates.{
  Has, candidate_banks-nonempty, candidate_banks-lt, candidate_banks_of_free,
  weight_free_banks_sound, weight_free_banks_complete,
}

-- The bank is in the list, and none in the list has a lower score.
abbrev pub IsBest : Locality → List ℕ → ℕ → Type 0
IsBest s banks r = Has r banks × ((c : ℕ) → Has c banks → score s r ≤ℤ score s c)

≤ℤ_of_not_lt : (a b : ℤ) → ltb_ℤ a b ≡ false → b ≤ℤ a
≤ℤ_of_not_lt a b h = ground arith

≤ℤ_of_lt : (a b c : ℤ) → ltb_ℤ a b ≡ true → c ≤ℤ a → c ≤ℤ b
≤ℤ_of_lt a b c h k = ground arith

≤ℤ_trans : (a b c : ℤ) → a ≤ℤ b → b ≤ℤ c → a ≤ℤ c
≤ℤ_trans a b c h k = omega arith

module _ (s : Locality) (banks : List ℕ) (x b : ℕ) where
  best_of_better :
      ltb_ℤ (score s x) (score s b) ≡ true
      → best_of s (x ∷ banks) (some (score s b)) b ≡ best_of s banks (some (score s x)) x
  unfolding best_of
  best_of_better less = rw less

  best_of_worse :
      ltb_ℤ (score s x) (score s b) ≡ false
      → best_of s (x ∷ banks) (some (score s b)) b ≡ best_of s banks (some (score s b)) b
  unfolding best_of
  best_of_worse more = rw more

best_of-nil : (s : Locality) (b : ℕ) (best : Option ℤ) → best_of s [] best b ≡ b
unfolding best_of
best_of-nil s b best = refl

-- The loop with a bank in hand.
best_of-IsBest :
    (s : Locality) (banks : List ℕ) (b : ℕ)
    → IsBest s (b ∷ banks) (best_of s banks (some (score s b)) b)
best_of-IsBest s [] b =
    rw (best_of-nil s b (some (score s b)))
      (inl refl, λ c h. elim h [ inl e ↦ rw e (omega arith) | inr no_more ↦ absurd no_more ])
best_of-IsBest s (x ∷ banks) b = elim (Bool-cases (ltb_ℤ (score s x) (score s b))) [
  | inl less ↦
      let rest = best_of-IsBest s banks x in
      subst (IsBest s (b ∷ x ∷ banks)) (sym (best_of_better s banks x b less)) (
        inr rest.0,
        λ c h. elim h [
          | inl e ↦ rw (← e) (≤ℤ_of_lt (score s x) (score s b) _ less (rest.1 x (inl refl)))
          | inr in_rest ↦ rest.1 c in_rest
        ],
      )
  | inr more ↦
      let rest = best_of-IsBest s banks b in
      subst (IsBest s (b ∷ x ∷ banks)) (sym (best_of_worse s banks x b more)) (
        elim rest.0 [ inl e ↦ inl e | inr in_rest ↦ inr (inr in_rest) ],
        λ c h. elim h [
          | inl e ↦ rest.1 c (inl e)
          | inr (inl e) ↦ rw (← e) (
              ≤ℤ_trans _ (score s b) (score s x) (rest.1 b (inl refl))
                (≤ℤ_of_not_lt (score s x) (score s b) more))
          | inr (inr in_rest) ↦ rest.1 c (inr in_rest)
        ],
      )
]

best_of_first :
    (s : Locality) (banks : List ℕ) (b : ℕ)
    → is_empty banks ≡ false
    → IsBest s banks (best_of s banks none b)
unfolding best_of
best_of_first s [] b h = cc
best_of_first s (x ∷ banks) b h = best_of-IsBest s banks x

-- Over at least one bank, the chosen bank is a candidate of least score.
pub choose-IsBest : (s : Locality) → 0 < s.num_banks → IsBest s (candidate_banks s) (choose s)
unfolding choose
choose-IsBest s h = best_of_first s (candidate_banks s) _ (candidate_banks-nonempty s h)

pub choose-lt : (s : Locality) → 0 < s.num_banks → choose s < s.num_banks
choose-lt s h = candidate_banks-lt s (choose s) (choose-IsBest s h).0

-- As soon as one bank holds no weights, the chosen bank holds none, and its score is least among the
-- banks without weights.
pub choose_of_free :
    (s : Locality) (b : ℕ)
    → b < s.num_banks
    → get_or s.static_weight_count b 0 ≡ 0
    → (get_or s.static_weight_count (choose s) 0 ≡ 0) × (score s (choose s) ≤ℤ score s b)
choose_of_free s b h free =
    let e = candidate_banks_of_free s b h free in
    let best = choose-IsBest s (omega arith) in
    (
      (weight_free_banks_sound s.static_weight_count s.num_banks 0 s.num_banks (choose s)
          (omega arith) (rw e at best.0)).1,
      best.1 b (
          rw e (
            weight_free_banks_complete s.static_weight_count s.num_banks 0 b (omega arith)
              (omega arith) free)),
    )
