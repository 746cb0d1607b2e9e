-- ===== src/Policy/Contention/Scan.antt =====
-- The cyclic scan of `ContentionAwarePolicy::allocate_kv_cache_bank`
-- (simulator/src/pim_codegen/kv_cache_policy.h): what it finds, and when it finds a bank.
use kvc_pim.Base.{
  ℕ, Bool-cases, zero, suc, ◌+◌, ◌-◌, ◌%◌, ◌≤◌, ◌<◌, ◌≡◌, sym, ap, subst, ◌∙◌, inl, inr, true,
  false, Option, some, List, arith,
}
use native.Mathlib.Nat.{mod-add-mod, mod-eq_of_lt, mod-lt, add-mod_right}
use native.Mathlib.Decide.{dec_le}
use kvc_pim.Policy.Contention.{is_good, scan}

module _ (weights allocs : List ℕ) (n attempts last : ℕ) where
  scan_hit :
      is_good weights allocs ((last + 1) % n) ≡ true
      → scan weights allocs n (suc attempts) last ≡ (some ((last + 1) % n), (last + 1) % n)
  unfolding scan
  scan_hit good = rw good

  scan_miss :
      is_good weights allocs ((last + 1) % n) ≡ false
      → scan weights allocs n (suc attempts) last ≡ scan weights allocs n attempts ((last + 1) % n)
  unfolding scan
  scan_miss bad = rw bad

-- What is found is a good bank in range.
pub scan-IsGood :
    (weights allocs : List ℕ) (n attempts last bank : ℕ)
    → 0 < n
    → (scan weights allocs n attempts last).0 ≡ some bank
    → (bank < n) × (is_good weights allocs bank ≡ true)
unfolding scan
scan-IsGood weights allocs n zero last bank h e = cc
scan-IsGood weights allocs n (suc attempts) last bank h e =
    elim (Bool-cases (is_good weights allocs ((last + 1) % n))) [
      | inl good ↦
          let same : (last + 1) % n ≡ bank =
            cc (ap (λ (r : Option ℕ × ℕ). r.0) (scan_hit weights allocs n attempts last good)) in
          (subst (λ b. b < n) same (mod-lt (last + 1) h), rw (← same) good)
      | inr bad ↦
          scan-IsGood weights allocs n attempts ((last + 1) % n) bank h
            (rw (← scan_miss weights allocs n attempts last bad) e)
    ]

-- A good bank `k + 1` places after the last one is reached within `k + 1` attempts.
scan_reaches :
    (weights allocs : List ℕ) (n attempts last bank k : ℕ)
    → (last + suc k) % n ≡ bank
    → k < attempts
    → is_good weights allocs bank ≡ true
    → (found : ℕ) × ((scan weights allocs n attempts last).0 ≡ some found)
scan_reaches weights allocs n zero last bank k e lt good = absurd (omega arith)
scan_reaches weights allocs n (suc attempts) last bank zero e lt good =
    ((last + 1) % n, rw (scan_hit weights allocs n attempts last (rw e good)))
scan_reaches weights allocs n (suc attempts) last bank (suc k) e lt good =
    elim (Bool-cases (is_good weights allocs ((last + 1) % n))) [
      | inl hit ↦ ((last + 1) % n, rw (scan_hit weights allocs n attempts last hit))
      | inr miss ↦ rw (scan_miss weights allocs n attempts last miss) (
          scan_reaches weights allocs n attempts ((last + 1) % n) bank k
            (mod-add-mod (last + 1) n (suc k) ∙ ap (λ m. m % n) (omega arith) ∙ e) (omega arith)
            good)
    ]

-- Every bank in range is at most `n` places after the last one.
distance : (n last bank : ℕ) → bank < n → (k : ℕ) × (k < n) × ((last + suc k) % n ≡ bank)
distance n last bank h = elim (dec_le ((last + 1) % n) bank) [
  | yes p ↦ (
    bank - (last + 1) % n,
    omega arith,
    ahead (bank - (last + 1) % n) (ap (λ m. m % n) (omega arith) ∙ mod-eq_of_lt h),
  )
  | no p ↦ (
    bank + n - (last + 1) % n,
    omega (arith, mod-lt (last + 1) {m = n} (omega arith)),
    ahead (bank + n - (last + 1) % n) (
        ap (λ m. m % n) (omega (arith, mod-lt (last + 1) {m = n} (omega arith)))
        ∙ add-mod_right bank n
        ∙ mod-eq_of_lt h),
  )
]
  where
    ahead : (k : ℕ) → ((last + 1) % n + k) % n ≡ bank → (last + suc k) % n ≡ bank
    ahead k e = ap (λ m. m % n) (omega arith) ∙ sym (mod-add-mod (last + 1) n k) ∙ e

-- The scan finds a bank as soon as there is a good one and an attempt for each bank.
pub scan_finds :
    (weights allocs : List ℕ) (n attempts last bank : ℕ)
    → n ≤ attempts
    → bank < n
    → is_good weights allocs bank ≡ true
    → (found : ℕ) × ((scan weights allocs n attempts last).0 ≡ some found)
scan_finds weights allocs n attempts last bank enough h good =
    let d = distance n last bank h in
    scan_reaches weights allocs n attempts last bank d.0 d.2 (omega arith) good
