-- ===== src/Policy/Contention/Fewest.antt =====
-- The fallback loop of `ContentionAwarePolicy::allocate_kv_cache_bank`
-- (simulator/src/pim_codegen/kv_cache_policy.h): a bank of least allocation count.
use kvc_pim.Base.{
  ℕ, Bool-cases, get_or, if◌then◌else◌, ltb, ltb→lt, lt→ltb, zero, suc, ◌+◌, ◌≤◌, ◌<◌, ◌≡◌, refl,
  sym, ap, subst, inl, inr, none, some, List, arith, Option,
}
use native.Mathlib.Decide.{dec_lt}
use native.Mathlib.Nat.{le_of_eq}
use kvc_pim.Policy.Contention.{fewest, int_max}

-- Bank `b` is below `n` and no bank below `n` has a smaller count.
abbrev pub IsLeast : List ℕ → ℕ → ℕ → Type 0
IsLeast counts n b = (b < n) × ((j : ℕ) → j < n → get_or counts b 0 ≤ get_or counts j 0)

-- One more bank is looked at.
IsLeast-step :
    (counts : List ℕ) (n b : ℕ)
    → IsLeast counts n b
    → IsLeast counts (n + 1) (if ltb (get_or counts n 0) (get_or counts b 0) then n else b)
IsLeast-step counts n b h = elim (Bool-cases (ltb (get_or counts n 0) (get_or counts b 0))) [
  | inl less ↦ rw less (
    omega arith,
    λ j lt. elim (dec_lt j n) [
      | yes p ↦ omega (arith, ltb→lt (get_or counts n 0) (get_or counts b 0) less, h.1 j p)
      | no p ↦ le_of_eq (ap (λ k. get_or counts k 0) (omega arith))
    ],
  )
  | inr more ↦ rw more (
    omega arith,
    λ j lt. elim (dec_lt j n) [
      | yes p ↦ h.1 j p
      | no p ↦
          let e : j ≡ n = omega arith in
          subst (λ k. get_or counts b 0 ≤ get_or counts k 0) (sym e) (ground arith)
    ],
  )
]

fewest-IsLeast :
    (counts : List ℕ) (rounds bank end b : ℕ)
    → bank + rounds ≡ end
    → IsLeast counts bank b
    → (r : ℕ) × (fewest counts rounds bank (get_or counts b 0) (some b) ≡ some r)
      × IsLeast counts end r
unfolding fewest
fewest-IsLeast counts zero bank end b e h =
    let e' : bank ≡ end = omega arith in (b, refl, subst (λ n. IsLeast counts n b) e' h)
fewest-IsLeast counts (suc rounds) bank end b e h =
    elim (Bool-cases (ltb (get_or counts bank 0) (get_or counts b 0))) [
      | inl less ↦ rw less (
          fewest-IsLeast counts rounds (bank + 1) end bank (omega arith)
            (rw less at (IsLeast-step counts bank b h)))
      | inr more ↦ rw more (
          fewest-IsLeast counts rounds (bank + 1) end b (omega arith)
            (rw more at (IsLeast-step counts bank b h)))
    ]

-- Over at least one bank, with the first count below the greatest `int`, the loop finds a bank of
-- least count.
pub fewest_lem :
    (counts : List ℕ) (n : ℕ)
    → 0 < n
    → get_or counts 0 0 < int_max
    → (r : ℕ) × (fewest counts n 0 int_max none ≡ some r) × IsLeast counts n r
unfolding fewest
fewest_lem counts zero h small = absurd (omega arith)
fewest_lem counts (suc n) h small = rw (lt→ltb (get_or counts 0 0) int_max small) (
    fewest-IsLeast counts n (0 + 1) (suc n) 0 (omega arith)
      (omega arith, λ j lt. le_of_eq (ap (λ k. get_or counts k 0) (omega arith))))

-- Whatever the loop finds is in range.
pub fewest-lt :
    (counts : List ℕ) (rounds bank least end r : ℕ) (best : Option ℕ)
    → bank + rounds ≡ end
    → ((b : ℕ) → best ≡ some b → b < end)
    → fewest counts rounds bank least best ≡ some r
    → r < end
unfolding fewest
fewest-lt counts zero bank least end r best e h found = h r found
fewest-lt counts (suc rounds) bank least end r best e h found =
    elim (Bool-cases (ltb (get_or counts bank 0) least)) [
      | inl less ↦
          fewest-lt counts rounds (bank + 1) (get_or counts bank 0) end r (some bank) (omega arith)
            (λ b p. ground arith) (rw less at found)
      | inr more ↦
          fewest-lt counts rounds (bank + 1) least end r best (omega arith) h (rw more at found)
    ]
