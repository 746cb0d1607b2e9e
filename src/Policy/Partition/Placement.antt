-- ===== src/Policy/Partition/Placement.antt =====
-- What `BankPartitioningPolicy` of simulator/src/pim_codegen/kv_cache_policy.h guarantees.
use kvc_pim.Base.{
  ℕ, suc, ◌+◌, ◌-◌, ◌<◌, ◌≤◌, ◌≡◌, arith, int_key, ℤ, pos, same_ℤ_iff, List, Bool, length,
  if◌then◌else◌, refl, true, false, [], ◌∷◌,
}
use native.Mathlib.Nat.{mod-lt}
use kvc_pim.Policy.Weights.{WeightMap, has_weights}
use kvc_pim.Policy.Interface.{IkvCachePolicy, Placed, Contract}
use kvc_pim.Policy.Partition.{
  Partition, init, set_static_weight_mapping, has_bank_conflict, allocate_kv_cache_bank,
  get_kv_cache_bank, reset_stats,
}

-- The state over `n` banks: a range that is not empty, inside the banks, with the next bank in it.
pub record IsValid (n : ℕ) (s : Partition) : Type 0 where
  pub fits : s.start + s.count ≤ n
  pub some_bank : 0 < s.count
  pub from : s.start ≤ s.next_kv_bank
  pub below : s.next_kv_bank < s.start + s.count
  pub bounded : s.total_conflicts ≤ s.total_allocations

abbrev pub policy : IkvCachePolicy
policy = record {
  State = Partition;
  set_static_weight_mapping = set_static_weight_mapping;
  allocate_kv_cache_bank =
      λ size token s. let r = allocate_kv_cache_bank size token s in (pos r.0, r.1);
  get_kv_cache_bank = get_kv_cache_bank;
  has_bank_conflict = has_bank_conflict;
  total_allocations = λ s. s.total_allocations;
  total_conflicts = λ s. s.total_conflicts;
  reset_stats = reset_stats;
}

-- Whatever two integers the configuration gives, over `n` banks, `n` positive, the policy starts in
-- a valid state: the reserved range is not empty and lies inside the banks. The configured range is
-- kept where it is itself such a range.
pub init-IsValid :
    (count start : ℤ) (n : ℕ) (m : WeightMap)
    → 0 < n
    → IsValid n (init count start (pos n) m)
      × ((a k : ℕ)
          → start ≡ pos a
          → count ≡ pos (suc k)
          → a + suc k ≤ n
          → ((init count start (pos n) m).start ≡ a) × ((init count start (pos n) m).count ≡ suc k))
unfolding init
init-IsValid count start n m h = (ground arith, λ a k p q le. ground arith)

pub set_static_weight_mapping-IsValid :
    (n : ℕ) (m : WeightMap) (s : Partition)
    → IsValid n s
    → IsValid n (set_static_weight_mapping m s)
unfolding set_static_weight_mapping
set_static_weight_mapping-IsValid n m s v = ground arith

pub reset_stats-IsValid :
    (n : ℕ) (s : Partition)
    → IsValid n s
    → IsValid n (reset_stats s)
      × ((reset_stats s).total_allocations ≡ 0)
      × ((reset_stats s).total_conflicts ≡ 0)
unfolding reset_stats
reset_stats-IsValid n s v = ground arith

-- An allocation hands out the next bank of the reserved range and records it: the token is found
-- there and no other token moves, the counters grow as the bank holds weights, the range stays, and
-- the state stays valid.
pub partition-Placed :
    (n size : ℕ) (token : ℤ) (s : Partition)
    → IsValid n s
    → let r = allocate_kv_cache_bank size token s in
      (r.0 ≡ s.next_kv_bank)
      × Placed policy token r.0 s r.1
      × (r.1.start ≡ s.start)
      × (r.1.count ≡ s.count)
      × IsValid n r.1
unfolding allocate_kv_cache_bank get_kv_cache_bank
partition-Placed n size token s v = (
  ground arith,
  record {
    found = ground (arith, same_ℤ_iff token token);
    others = λ other ne. ground (arith, same_ℤ_iff token other);
    counted = ground arith;
    conflicts = ground arith;
  },
  ground arith,
  ground arith,
  ground (arith, mod-lt (s.next_kv_bank - s.start + 1) v.some_bank),
)

unfoldable pub contract : (n : ℕ) → Contract policy n
contract n = record {
  IsValid = IsValid n;
  place = λ size token s v.
      let r = partition-Placed n size token s v in
      (
        (allocate_kv_cache_bank size token s).0,
        refl,
        omega (arith, r.0, v.below, v.fits),
        r.1,
        r.4,
      );
  remap = set_static_weight_mapping-IsValid n;
  reset = reset_stats-IsValid n;
}

abbrev pub allocate_all : ℕ → List ℤ → Partition → Partition
allocate_all size [] s = s
allocate_all size (token ∷ tokens) s =
    allocate_all size tokens (allocate_kv_cache_bank size token s).1

-- The reserved range of `s`, and whether its banks hold weights in the mapping of `s`.
abbrev pub AllReserved : Bool → Partition → Type 0
AllReserved weighted s =
    (b : ℕ)
    → s.start ≤ b
    → b < s.start + s.count
    → has_weights (pos b) s.static_weight_mapping ≡ weighted

abbrev pub conflicts_of : Bool → ℕ → ℕ
conflicts_of weighted k = if weighted then k else 0

allocate-conflicts :
    (weighted : Bool) (n size : ℕ) (token : ℤ) (s : Partition)
    → IsValid n s
    → AllReserved weighted s
    → let r = allocate_kv_cache_bank size token s in
      (r.1.total_conflicts ≡ conflicts_of weighted 1 + s.total_conflicts) × AllReserved weighted r.1
unfolding allocate_kv_cache_bank has_bank_conflict
allocate-conflicts weighted n size token s v all =
    (ground (arith, all s.next_kv_bank v.from v.below), λ b p q. ground (arith, all b))

-- Reserving works exactly as well as the range is chosen: over any list of tokens no allocation is a
-- conflict if no reserved bank holds weights, and every one is if each reserved bank holds weights.
pub allocate_all-conflicts :
    (weighted : Bool) (n size : ℕ) (tokens : List ℤ) (s : Partition)
    → IsValid n s
    → AllReserved weighted s
    → (allocate_all size tokens s).total_conflicts
      ≡ conflicts_of weighted (length tokens) + s.total_conflicts
allocate_all-conflicts true n size [] s v all = omega arith
allocate_all-conflicts false n size [] s v all = omega arith
allocate_all-conflicts weighted n size (token ∷ tokens) s v all =
    let r = allocate-conflicts weighted n size token s v all in
    ground (
      arith,
      r.0,
      allocate_all-conflicts weighted n size tokens (allocate_kv_cache_bank size token s).1
          (partition-Placed n size token s v).4 r.1,
    )
