-- ===== src/Policy/Agreement.antt =====
-- The conflict tests of the policies of simulator/src/pim_codegen/kv_cache_policy.h, compared.
use kvc_pim.Base.{ℕ, if◌then◌else◌, leb, ltb, lt→ltb, ℤ, ◌+◌, ◌<◌, ◌≡◌, false, ◌&&◌, arith, pos}
use kvc_pim.Policy.Weights.{WeightMap, DistinctKeys, has_weights}
use kvc_pim.Policy.Weights.Counts.{positive-weight_counts}
use kvc_pim.Policy.Naive
use kvc_pim.Policy.Partition
use kvc_pim.Policy.Contention
use kvc_pim.Policy.Contention.Placement.{usable as contention_usable}
use kvc_pim.Policy.Locality
use kvc_pim.Policy.Locality.Placement.{usable as locality_usable}

contention_agrees :
    (n : ℕ) (m : WeightMap) (b : ℕ)
    → b < n
    → DistinctKeys m
    → Contention.has_bank_conflict (pos b) (Contention.init (pos n) m) ≡ has_weights (pos b) m
unfolding Contention.has_bank_conflict Contention.init
contention_agrees n m b h d =
    rw (contention_usable n (omega arith), lt→ltb b n h) (positive-weight_counts n m b h d)

locality_agrees :
    (n : ℕ) (m : WeightMap) (b : ℕ)
    → b < n
    → DistinctKeys m
    → Locality.has_bank_conflict (pos b) (Locality.init (pos n) m) ≡ has_weights (pos b) m
unfolding Locality.has_bank_conflict Locality.init
locality_agrees n m b h d =
    rw (locality_usable n (omega arith), lt→ltb b n h) (positive-weight_counts n m b h d)

-- Initialised with one mapping over `n` banks, the naive, the contention-aware and the smart policy
-- give the same answer for each bank below `n`, by their three ways of storing the weights; the
-- partitioning policy gives it for the banks that it reserves, and no conflict for the others.
pub conflicts_agree :
    (count start : ℤ) (n : ℕ) (m : WeightMap) (b : ℕ)
    → b < n
    → DistinctKeys m
    → let naive = Naive.has_bank_conflict (pos b) (Naive.init (pos n) m) in
      let reserved = Partition.init count start (pos n) m in
      (Contention.has_bank_conflict (pos b) (Contention.init (pos n) m) ≡ naive)
      × (Locality.has_bank_conflict (pos b) (Locality.init (pos n) m) ≡ naive)
      × (Partition.has_bank_conflict (pos b) reserved ≡ (
          if leb reserved.start b && ltb b (reserved.start + reserved.count) then naive else false))
unfolding Naive.has_bank_conflict Naive.init Partition.has_bank_conflict Partition.init
conflicts_agree count start n m b h d =
    (contention_agrees n m b h d, locality_agrees n m b h d, ground arith)
