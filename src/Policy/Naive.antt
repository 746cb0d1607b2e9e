-- ===== src/Policy/Naive.antt =====
-- `NaiveKVCachePolicy` of simulator/src/pim_codegen/kv_cache_policy.h: round-robin placement.
pub mod Placement
use kvc_pim.Base.{
  ℕ, ◌+◌, ◌%◌, Bool, none, some, List, [], ◌∷◌, if◌then◌else◌, int_key, ℤ, pos, minus_one, leb_ℤ,
  pos_part, Map, empty_map, insert,
}
use Prim.Native.String.{String}
use kvc_pim.Policy.Weights.{WeightMap, has_weights}

pub record Naive : Type 0 where
  pub num_banks : ℤ
  pub next_bank : ℕ
  pub token_to_bank : Map ℤ ℕ
  pub static_weight_mapping : WeightMap
  pub total_allocations : ℕ
  pub total_conflicts : ℕ

unfoldable pub init : ℤ → WeightMap → Naive
init num_banks mapping = record {
  num_banks = num_banks;
  next_bank = 0;
  token_to_bank = empty_map;
  static_weight_mapping = mapping;
  total_allocations = 0;
  total_conflicts = 0;
}

unfoldable pub set_static_weight_mapping : WeightMap → Naive → Naive
set_static_weight_mapping mapping s = record s { static_weight_mapping = mapping }

unfoldable pub has_bank_conflict : ℤ → Naive → Bool
unfolding has_weights
has_bank_conflict bank s = has_weights bank s.static_weight_mapping

-- The chosen bank beside the new state; no branch of the source returns a negative number.
unfoldable pub allocate_kv_cache_bank : ℕ → ℤ → Naive → ℕ × Naive
allocate_kv_cache_bank kv_cache_size token s = if leb_ℤ s.num_banks (pos 0) then (0, s) else (
  s.next_bank,
  record s {
    next_bank = (s.next_bank + 1) % pos_part s.num_banks;
    token_to_bank = insert token s.next_bank s.token_to_bank;
    total_allocations = s.total_allocations + 1;
    total_conflicts =
        if has_bank_conflict (pos s.next_bank) s then s.total_conflicts + 1 else s.total_conflicts;
  },
)

unfoldable pub get_kv_cache_bank : ℤ → Naive → ℤ
get_kv_cache_bank token s = elim (s.token_to_bank token) [ none ↦ minus_one | some b ↦ pos b ]

unfoldable pub get_stats : Naive → List (String × ℕ)
get_stats s =
    ("total_allocations", s.total_allocations) ∷ ("total_conflicts", s.total_conflicts) ∷ []

unfoldable pub reset_stats : Naive → Naive
reset_stats s = record s { total_allocations = 0; total_conflicts = 0 }
