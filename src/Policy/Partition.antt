-- ===== src/Policy/Partition.antt =====
-- `BankPartitioningPolicy` of simulator/src/pim_codegen/kv_cache_policy.h: a reserved range of banks.
pub mod Placement
use kvc_pim.Base.{
  ℕ, ◌+◌, ◌-◌, ◌%◌, Bool, false, ◌&&◌, none, some, List, [], ◌∷◌, if◌then◌else◌, int_key, ℤ, pos,
  minus_one, leb_ℤ, ltb_ℤ, ◌==◌, pos_part, Map, empty_map, insert,
}
use Prim.Native.String.{String}
use kvc_pim.Policy.Weights.{WeightMap, has_weights}

-- `start` and `count` are `int`s that the constructor makes non-negative.
pub record Partition : Type 0 where
  pub num_banks : ℤ
  pub start : ℕ
  pub count : ℕ
  pub next_kv_bank : ℕ
  pub token_to_bank : Map ℤ ℕ
  pub static_weight_mapping : WeightMap
  pub total_allocations : ℕ
  pub total_conflicts : ℕ

-- `if (count <= 0) count = 1; if (start < 0) start = 0;`
abbrev pub at_least_one : ℤ → ℕ
at_least_one n = if leb_ℤ n (pos 0) then 1 else pos_part n

-- The range of `init` after its checks against `num_banks`, as (start, count).
unfoldable pub clamp_range : ℤ → ℕ → ℕ → ℕ × ℕ
clamp_range num_banks start count =
    if leb_ℤ (pos (start + count)) num_banks
    then (start, count)
    else if ltb_ℤ (pos start) num_banks
    then (start, pos_part num_banks - start)
    else (0, if ltb_ℤ (pos 4) num_banks then 4 else 1)

-- The two parameters `kv_cache_banks_count` and `kv_cache_banks_start` come from the configuration.
unfoldable pub init : ℤ → ℤ → ℤ → WeightMap → Partition
unfolding clamp_range
init kv_cache_banks_count kv_cache_banks_start num_banks mapping =
    let range =
      clamp_range num_banks (pos_part kv_cache_banks_start) (at_least_one kv_cache_banks_count) in
    record {
      num_banks = num_banks;
      start = range.0;
      count = range.1;
      next_kv_bank = range.0;
      token_to_bank = empty_map;
      static_weight_mapping = mapping;
      total_allocations = 0;
      total_conflicts = 0;
    }

unfoldable pub set_static_weight_mapping : WeightMap → Partition → Partition
set_static_weight_mapping mapping s = record s { static_weight_mapping = mapping }

unfoldable pub has_bank_conflict : ℤ → Partition → Bool
unfolding has_weights
has_bank_conflict bank s =
    if leb_ℤ (pos s.start) bank && ltb_ℤ bank (pos (s.start + s.count))
    then has_weights bank s.static_weight_mapping
    else false

unfoldable pub allocate_kv_cache_bank : ℕ → ℤ → Partition → ℕ × Partition
allocate_kv_cache_bank kv_cache_size token s = if s.count == 0 then (0, s) else (
  s.next_kv_bank,
  record s {
    next_kv_bank = s.start + (s.next_kv_bank - s.start + 1) % s.count;
    token_to_bank = insert token s.next_kv_bank s.token_to_bank;
    total_allocations = s.total_allocations + 1;
    total_conflicts =
        if has_bank_conflict (pos s.next_kv_bank) s
        then s.total_conflicts + 1
        else s.total_conflicts;
  },
)

unfoldable pub get_kv_cache_bank : ℤ → Partition → ℤ
get_kv_cache_bank token s = elim (s.token_to_bank token) [ none ↦ minus_one | some b ↦ pos b ]

unfoldable pub get_stats : Partition → List (String × ℕ)
get_stats s =
    ("total_allocations", s.total_allocations)
    ∷ ("total_conflicts", s.total_conflicts)
    ∷ ("reserved_banks", s.count)
    ∷ []

unfoldable pub reset_stats : Partition → Partition
reset_stats s = record s { total_allocations = 0; total_conflicts = 0 }
