-- ===== src/Policy/Contention/Placement.antt =====
-- What every allocation of `ContentionAwarePolicy` does
-- (simulator/src/pim_codegen/kv_cache_policy.h).
use kvc_pim.Base.{
  ℕ, Option-cases, get_or, length, length-set, same_ℤ_iff, ℤ, ◌+◌, ◌≤◌, ◌<◌, ◌≡◌, refl, inl, inr,
  Option, none, some, List, arith, pos, length-replicate, ◌*◌, subst, ◌∙◌, length-zeroes,
}
use kvc_pim.Policy.Weights.{WeightMap}
use kvc_pim.Policy.Weights.Counts.{length-weight_counts}
use kvc_pim.Policy.Interface.{IkvCachePolicy, Placed, Contract}
use kvc_pim.Policy.Contention.{
  Contention, usable_banks, init, set_static_weight_mapping, has_bank_conflict, scan, fewest,
  best_bank, choose, record_allocation, allocate_kv_cache_bank, get_kv_cache_bank, reset_stats,
  int_max,
}
use kvc_pim.Policy.Contention.Scan.{scan-IsGood}
use kvc_pim.Policy.Contention.Fewest.{fewest-lt}

-- The state over `n` banks.
pub record IsValid (n : ℕ) (s : Contention) : Type 0 where
  pub banks : s.num_banks ≡ n
  pub some_bank : 0 < n
  pub weights : length s.static_weight_count ≡ n
  pub allocs : length s.dynamic_alloc_count ≡ n
  pub bounded : s.total_conflicts ≤ s.total_allocations

abbrev pub policy : IkvCachePolicy
policy = record {
  State = Contention;
  set_static_weight_mapping = set_static_weight_mapping;
  allocate_kv_cache_bank =
      λ size token s. let r = allocate_kv_cache_bank size token s in (pos r.0, r.1);
  get_kv_cache_bank = get_kv_cache_bank;
  has_bank_conflict = has_bank_conflict;
  total_allocations = λ s. s.total_allocations;
  total_conflicts = λ s. s.total_conflicts;
  reset_stats = reset_stats;
}

pub usable : (n : ℕ) → 0 < n → usable_banks (pos n) ≡ n
usable n h = ground arith

pub init-IsValid : (n : ℕ) (m : WeightMap) → 0 < n → IsValid n (init (pos n) m)
unfolding init
init-IsValid n m h = record {
  banks = usable n h;
  some_bank = h;
  weights = length-weight_counts (usable_banks (pos n)) m ∙ usable n h;
  allocs = length-replicate (usable_banks (pos n)) 0 ∙ usable n h;
  bounded = omega arith;
}

pub set_static_weight_mapping-IsValid :
    (n : ℕ) (m : WeightMap) (s : Contention)
    → IsValid n s
    → IsValid n (set_static_weight_mapping m s)
unfolding set_static_weight_mapping
set_static_weight_mapping-IsValid n m s v = ground (arith, length-weight_counts n m)

pub reset_stats-IsValid :
    (n : ℕ) (s : Contention)
    → IsValid n s
    → IsValid n (reset_stats s)
      × ((reset_stats s).total_allocations ≡ 0)
      × ((reset_stats s).total_conflicts ≡ 0)
unfolding reset_stats
reset_stats-IsValid n s v = ground (arith, length-zeroes s.dynamic_alloc_count)

best_bank-lt :
    (counts : List ℕ) (n : ℕ) (found : Option ℕ)
    → 0 < n
    → ((b : ℕ) → found ≡ some b → b < n)
    → best_bank counts n found < n
best_bank-lt counts n (some b) h good = good b refl
best_bank-lt counts n none h good = elim (Option-cases (fewest counts n 0 int_max none)) [
  | inl e ↦ rw (e, best_bank) h
  | inr (b, e) ↦
      rw (e, best_bank) (fewest-lt counts n 0 int_max n b none (omega arith) (λ c p. cc) e)
]

pub choose-lt : (n : ℕ) (s : Contention) → IsValid n s → (choose s).0 < n
unfolding choose
choose-lt n s v =
    subst (λ k. (choose s).0 < k) v.banks
      (best_bank-lt s.dynamic_alloc_count s.num_banks found.0 pos_banks (λ b e.
        (scan-IsGood s.static_weight_count s.dynamic_alloc_count s.num_banks (s.num_banks * 2)
          s.last_allocated_bank b pos_banks e).0))
  where
    found : Option ℕ × ℕ
    found =
        scan s.static_weight_count s.dynamic_alloc_count s.num_banks (s.num_banks * 2)
          s.last_allocated_bank

    pos_banks : 0 < s.num_banks
    pos_banks = omega (arith, v.banks, v.some_bank)

-- An allocation over `n` banks stays in range and records the bank: the token is found there and no
-- other token moves, the counters grow as the bank holds weights, and the state stays valid.
pub contention-Placed :
    (n size : ℕ) (token : ℤ) (s : Contention)
    → IsValid n s
    → let r = allocate_kv_cache_bank size token s in
      (r.0 < n) × Placed policy token r.0 s r.1 × IsValid n r.1
unfolding allocate_kv_cache_bank get_kv_cache_bank record_allocation
contention-Placed n size token s v = (
  choose-lt n s v,
  record {
    found = ground (arith, same_ℤ_iff token token);
    others = λ other ne. ground (arith, same_ℤ_iff token other);
    counted = ground arith;
    conflicts = ground arith;
  },
  ground (
    arith,
    length-set s.dynamic_alloc_count (choose s).0 (get_or s.dynamic_alloc_count (choose s).0 0 + 1),
  ),
)

unfoldable pub contract : (n : ℕ) → Contract policy n
contract n = record {
  IsValid = IsValid n;
  place = λ size token s v.
      let r = contention-Placed n size token s v in
      ((allocate_kv_cache_bank size token s).0, refl, r.0, r.1, r.2);
  remap = set_static_weight_mapping-IsValid n;
  reset = reset_stats-IsValid n;
}
