-- ===== src/Policy/Locality/Placement.antt =====
-- What every allocation of `SmartLocalityPolicy` does
-- (simulator/src/pim_codegen/kv_cache_policy.h).
use kvc_pim.Base.{
  ℕ, get_or, length, length-replicate, length-set, length-zeroes, same_ℤ_iff, ℤ, ◌+◌, ◌≤◌, ◌<◌, ◌≡◌,
  refl, subst, ◌∙◌, arith, pos,
}
use kvc_pim.Policy.Weights.{WeightMap, weight_counts}
use kvc_pim.Policy.Weights.Counts.{length-weight_counts}
use kvc_pim.Policy.Interface.{IkvCachePolicy, Placed, Contract}
use kvc_pim.Policy.Locality.{
  Locality, usable_banks, init, set_static_weight_mapping, has_bank_conflict, choose,
  record_allocation, allocate_kv_cache_bank, get_kv_cache_bank, reset_stats, max_weight_count,
  fresh,
}
use kvc_pim.Policy.Locality.Choice.{choose-lt, choose_of_free}
use kvc_pim.Policy.Locality.Activity.{length-fill_activity}

-- The state over `n` banks.
pub record IsValid (n : ℕ) (s : Locality) : Type 0 where
  pub banks : s.num_banks ≡ n
  pub some_bank : 0 < n
  pub weights : length s.static_weight_count ≡ n
  pub allocs : length s.dynamic_alloc_count ≡ n
  pub activity : length s.bank_activity ≡ n
  pub bounded : s.total_conflicts ≤ s.total_allocations

abbrev pub policy : IkvCachePolicy
policy = record {
  State = Locality;
  set_static_weight_mapping = set_static_weight_mapping;
  allocate_kv_cache_bank =
      λ size token s. let r = allocate_kv_cache_bank size token s in (pos r.0, r.1);
  get_kv_cache_bank = get_kv_cache_bank;
  has_bank_conflict = has_bank_conflict;
  total_allocations = λ s. s.total_allocations;
  total_conflicts = λ s. s.total_conflicts;
  reset_stats = reset_stats;
}

pub set_static_weight_mapping-IsValid :
    (n : ℕ) (m : WeightMap) (s : Locality)
    → s.num_banks ≡ n
    → 0 < n
    → length s.dynamic_alloc_count ≡ n
    → length s.bank_activity ≡ n
    → s.total_conflicts ≤ s.total_allocations
    → IsValid n (set_static_weight_mapping m s)
unfolding set_static_weight_mapping
set_static_weight_mapping-IsValid n m s e h a q c = ground (
  arith,
  length-weight_counts s.num_banks m,
  length-fill_activity (weight_counts s.num_banks m) (max_weight_count s.num_banks m 0) s.num_banks
      0 s.bank_activity,
)

pub usable : (n : ℕ) → 0 < n → usable_banks (pos n) ≡ n
usable n h = ground arith

pub init-IsValid : (n : ℕ) (m : WeightMap) → 0 < n → IsValid n (init (pos n) m)
unfolding init
init-IsValid n m h =
    set_static_weight_mapping-IsValid n m (fresh (pos n)) (usable n h) h
      (length-replicate (usable_banks (pos n)) 0 ∙ usable n h)
      (length-replicate (usable_banks (pos n)) 0 ∙ usable n h) (omega arith)

pub reset_stats-IsValid :
    (n : ℕ) (s : Locality)
    → IsValid n s
    → IsValid n (reset_stats s)
      × ((reset_stats s).total_allocations ≡ 0)
      × ((reset_stats s).total_conflicts ≡ 0)
unfolding reset_stats
reset_stats-IsValid n s v = ground (arith, length-zeroes s.dynamic_alloc_count)

-- An allocation over `n` banks stays in range and records the bank: the token is found there and no
-- other token moves, the counters grow as the bank holds weights, and the state stays valid.
pub locality-Placed :
    (n size : ℕ) (token : ℤ) (s : Locality)
    → IsValid n s
    → let r = allocate_kv_cache_bank size token s in
      (r.0 < n) × Placed policy token r.0 s r.1 × IsValid n r.1
unfolding allocate_kv_cache_bank get_kv_cache_bank record_allocation
locality-Placed n size token s v = (
  subst (λ k. choose s < k) v.banks (choose-lt s (omega (arith, v.banks, v.some_bank))),
  record {
    found = ground (arith, same_ℤ_iff token token);
    others = λ other ne. ground (arith, same_ℤ_iff token other);
    counted = ground arith;
    conflicts = ground arith;
  },
  ground (
    arith,
    length-set s.dynamic_alloc_count (choose s) (get_or s.dynamic_alloc_count (choose s) 0 + 1),
  ),
)

-- As soon as one bank holds no weights, no allocation is a conflict.
pub allocate_of_free :
    (n size : ℕ) (token : ℤ) (s : Locality) (b : ℕ)
    → IsValid n s
    → b < n
    → get_or s.static_weight_count b 0 ≡ 0
    → let r = allocate_kv_cache_bank size token s in
      (get_or s.static_weight_count r.0 0 ≡ 0)
      × (r.1.total_conflicts ≡ s.total_conflicts)
      × (r.1.static_weight_count ≡ s.static_weight_count)
unfolding allocate_kv_cache_bank has_bank_conflict record_allocation
allocate_of_free n size token s b v h free =
    let chosen = (choose_of_free s b (omega (arith, h, v.banks)) free).0 in
    (chosen, ground arith, refl)

unfoldable pub contract : (n : ℕ) → Contract policy n
contract n = record {
  IsValid = IsValid n;
  place = λ size token s v.
      let r = locality-Placed n size token s v in
      ((allocate_kv_cache_bank size token s).0, refl, r.0, r.1, r.2);
  remap = λ m s v.
      set_static_weight_mapping-IsValid n m s v.banks v.some_bank v.allocs v.activity v.bounded;
  reset = reset_stats-IsValid n;
}
