-- ===== src/Tests/Policies.antt =====
-- The placement policies on four banks, of which banks 0 and 2 hold weights
-- (simulator/src/pim_codegen/kv_cache_policy.h).
use kvc_pim.Base.{
  ℕ, ◌*◌, ◌/◌, get_or, if◌then◌else◌, leb, length, ltb, ℤ, ◌+◌, ◌≡◌, refl, false, ◌&&◌, List, [],
  ◌∷◌, arith, pos, ◌≤◌, ◌<◌,
}
use kvc_pim.Policy.Weights.{WeightMap, weight_counts, has_weights}
use kvc_pim.Policy.Naive as Naive
use kvc_pim.Policy.Partition as Partition
use kvc_pim.Policy.Contention as Contention
use kvc_pim.Policy.Locality as Locality
use kvc_pim.Policy.Partition.Placement as PartitionPlacement
use kvc_pim.Policy.Contention.Capacity as Capacity
use kvc_pim.Policy.Locality.Balance as Balance
use kvc_pim.Policy.Locality.Activity as Activity
use kvc_pim.Policy.Agreement.{conflicts_agree}

abbrev weights : WeightMap
weights = (pos 0, 7 ∷ 8 ∷ []) ∷ (pos 2, 9 ∷ []) ∷ []

abbrev tokens : List ℤ
tokens = pos 0 ∷ pos 1 ∷ pos 2 ∷ pos 3 ∷ []

no_conflict_example :
    (Capacity.allocate_all 64 tokens (Contention.init (pos 4) weights)).total_conflicts ≡ 0
unfolding weight_counts Capacity.weight_free
no_conflict_example =
    Capacity.allocate_all-no-conflict 4 64 weights tokens (omega arith) (omega arith)

bank_3 : (b : ℕ) → 3 ≤ b → b < 3 + 1 → b ≡ 3
bank_3 b h k = omega arith

only_bank_3 : PartitionPlacement.AllReserved false (Partition.init (pos 1) (pos 3) (pos 4) weights)
unfolding Partition.init has_weights
only_bank_3 b h k = rw (bank_3 b h k) refl

reserved_example :
    (PartitionPlacement.allocate_all 64 tokens
      (Partition.init (pos 1) (pos 3) (pos 4) weights)).total_conflicts
    ≡ PartitionPlacement.conflicts_of false (length tokens)
      + (Partition.init (pos 1) (pos 3) (pos 4) weights).total_conflicts
reserved_example =
    PartitionPlacement.allocate_all-conflicts false 4 64 tokens
      (Partition.init (pos 1) (pos 3) (pos 4) weights)
      (PartitionPlacement.init-IsValid (pos 1) (pos 3) 4 weights (omega arith)).0 only_bank_3

agree_example :
    (Contention.has_bank_conflict (pos 2) (Contention.init (pos 4) weights)
      ≡ Naive.has_bank_conflict (pos 2) (Naive.init (pos 4) weights))
    × (Locality.has_bank_conflict (pos 2) (Locality.init (pos 4) weights)
        ≡ Naive.has_bank_conflict (pos 2) (Naive.init (pos 4) weights))
    × (Partition.has_bank_conflict (pos 2) (Partition.init (pos 1) (pos 2) (pos 4) weights) ≡ (
        if leb (Partition.init (pos 1) (pos 2) (pos 4) weights).start 2
          && ltb 2 (
              (Partition.init (pos 1) (pos 2) (pos 4) weights).start
              + (Partition.init (pos 1) (pos 2) (pos 4) weights).count)
        then Naive.has_bank_conflict (pos 2) (Naive.init (pos 4) weights)
        else false))
agree_example = conflicts_agree (pos 1) (pos 2) 4 weights 2 (omega arith) (refl, (refl, tt))

balanced_example :
    ((Balance.allocate_all 64 tokens (Locality.init (pos 4) weights)).total_conflicts ≡ 0)
    × ((i j : ℕ)
        → i < 4
        → j < 4
        → get_or (weight_counts 4 weights) i 0 ≡ 0
        → get_or (weight_counts 4 weights) j 0 ≡ 0
        → get_or
            (Balance.allocate_all 64 tokens (Locality.init (pos 4) weights)).dynamic_alloc_count
            i
            0
          ≤ get_or
              (Balance.allocate_all 64 tokens (Locality.init (pos 4) weights)).dynamic_alloc_count
              j
              0
            + 1)
unfolding weight_counts
balanced_example = Balance.allocate_all_balanced 4 64 weights tokens 1 (omega arith) refl

stale_example :
    let t =
      Locality.set_static_weight_mapping []
        (Locality.set_static_weight_mapping weights (Locality.fresh (pos 4))) in
    (get_or t.bank_activity 0 0
      ≡ get_or (weight_counts 4 weights) 0 0 * 100 / Locality.max_weight_count 4 weights 0)
    × (get_or t.static_weight_count 0 0 ≡ 0)
unfolding Locality.max_weight_count
stale_example =
    Activity.set_static_weight_mapping_stale weights [] (Locality.fresh (pos 4)) 0 refl
      (omega arith) refl (omega arith)
