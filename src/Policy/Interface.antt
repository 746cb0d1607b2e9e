-- ===== src/Policy/Interface.antt =====
-- `IKVCachePolicy` of simulator/src/pim_codegen/kv_cache_policy.h, and what its clients rely on.
use kvc_pim.Base.{ℕ, ◌+◌, ◌<◌, ◌≡◌, ◌≢◌, Bool, if◌then◌else◌, ℤ, pos}
use kvc_pim.Policy.Weights.{WeightMap}

-- The virtual functions of a policy over its state. A call that changes the state returns the new one.
pub record IkvCachePolicy : Type 1 where
  pub State : Type 0
  pub set_static_weight_mapping : WeightMap → State → State
  pub allocate_kv_cache_bank : ℕ → ℤ → State → ℤ × State
  pub get_kv_cache_bank : ℤ → State → ℤ
  pub has_bank_conflict : ℤ → State → Bool
  pub total_allocations : State → ℕ
  pub total_conflicts : State → ℕ
  pub reset_stats : State → State

module _ (policy : IkvCachePolicy) where
  open policy use {
    State, set_static_weight_mapping, allocate_kv_cache_bank, get_kv_cache_bank, has_bank_conflict,
    total_allocations, total_conflicts, reset_stats,
  }

  -- An allocation of bank `bank` to `token`, from `before` to `after`.
  pub record Placed (token : ℤ) (bank : ℕ) (before after : State) : Type 0 where
    pub found : get_kv_cache_bank token after ≡ pos bank
    pub others :
        (other : ℤ) → other ≢ token → get_kv_cache_bank other after ≡ get_kv_cache_bank other before
    pub counted : total_allocations after ≡ total_allocations before + 1
    pub conflicts : total_conflicts after ≡ (
        if has_bank_conflict (pos bank) before
        then total_conflicts before + 1
        else total_conflicts before)

  -- The contract of a policy over `banks` banks: its invariant, what an allocation does, and that the
  -- other calls keep the invariant.
  pub record Contract (banks : ℕ) : Type 1 where
    pub IsValid : State → Type 0
    pub place :
        (size : ℕ) (token : ℤ) (s : State)
        → IsValid s
        → (bank : ℕ) × ((allocate_kv_cache_bank size token s).0 ≡ pos bank)
          × (bank < banks)
          × Placed token bank s (allocate_kv_cache_bank size token s).1
          × IsValid (allocate_kv_cache_bank size token s).1
    pub remap : (m : WeightMap) (s : State) → IsValid s → IsValid (set_static_weight_mapping m s)
    pub reset :
        (s : State)
        → IsValid s
        → IsValid (reset_stats s)
          × (total_allocations (reset_stats s) ≡ 0)
          × (total_conflicts (reset_stats s) ≡ 0)
