-- ===== src/Policy/Contention.antt =====
-- `ContentionAwarePolicy` of simulator/src/pim_codegen/kv_cache_policy.h: a cyclic scan for a bank
-- without weights and with fewer than three KV caches, and a fallback to the least used bank.
pub mod Scan
pub mod Fewest
pub mod Placement
pub mod Capacity
use kvc_pim.Base.{
  ℕ, zero, suc, ◌+◌, ◌-◌, ◌*◌, ◌%◌, ◌^◌, Bool, false, ◌&&◌, Option, none, some, List, [], ◌∷◌, ◌++◌,
  if◌then◌else◌, int_key, ℤ, pos, negsuc, minus_one, leb_ℤ, ltb, ◌==◌, pos_part, Map, empty_map,
  insert, get_or, set, replicate, zeroes,
}
use Prim.Native.String.{String}
use kvc_pim.Policy.Weights.{WeightMap, weight_counts}

-- `last_allocated_bank` is the function's `static` variable, of the one policy that a run creates.
pub record Contention : Type 0 where
  pub num_banks : ℕ
  pub token_to_bank : Map ℤ ℕ
  pub static_weight_mapping : WeightMap
  pub static_weight_count : List ℕ
  pub dynamic_alloc_count : List ℕ
  pub total_allocations : ℕ
  pub total_conflicts : ℕ
  pub allocation_order : List ℕ
  pub last_allocated_bank : ℕ

-- `if (num_banks <= 0) m_num_banks = 1`
abbrev pub usable_banks : ℤ → ℕ
usable_banks n = if leb_ℤ n (pos 0) then 1 else pos_part n

unfoldable pub set_static_weight_mapping : WeightMap → Contention → Contention
unfolding weight_counts
set_static_weight_mapping mapping s = record s {
  static_weight_mapping = mapping;
  static_weight_count = weight_counts s.num_banks mapping;
}

unfoldable pub init : ℤ → WeightMap → Contention
unfolding set_static_weight_mapping
init num_banks mapping = set_static_weight_mapping mapping (record {
  num_banks = usable_banks num_banks;
  token_to_bank = empty_map;
  static_weight_mapping = [];
  static_weight_count = [];
  dynamic_alloc_count = replicate (usable_banks num_banks) 0;
  total_allocations = 0;
  total_conflicts = 0;
  allocation_order = [];
  last_allocated_bank = 3;
})

-- `m_static_weight_count[b] == 0 && m_dynamic_alloc_count[b] < 3`
abbrev pub is_good : List ℕ → List ℕ → ℕ → Bool
is_good weights allocs b = get_or weights b 0 == 0 && ltb (get_or allocs b 0) 3

-- The `while` loop over the attempts left: the bank found, and the last bank looked at.
unfoldable pub scan : List ℕ → List ℕ → ℕ → ℕ → ℕ → Option ℕ × ℕ
scan weights allocs n zero last = (none, last)
scan weights allocs n (suc attempts) last =
    let next = (last + 1) % n in
    let rest = scan weights allocs n attempts next in
    if is_good weights allocs next then (some next, next) else rest

abbrev pub int_max : ℕ
int_max = 2 ^ 31 - 1

-- The `for` loop of the fallback: rounds left, bank, least count so far, best bank so far.
unfoldable pub fewest : List ℕ → ℕ → ℕ → ℕ → Option ℕ → Option ℕ
fewest allocs zero bank least best = best
fewest allocs (suc rounds) bank least best =
    let count = get_or allocs bank 0 in
    let less = ltb count least in
    fewest allocs rounds (bank + 1) (if less then count else least)
      (if less then some bank else best)

-- The bank that is recorded for what the loops found, where `none` is -1.
abbrev pub best_bank : List ℕ → ℕ → Option ℕ → ℕ
best_bank allocs n (some b) = b
best_bank allocs n none = elim (fewest allocs n 0 int_max none) [ none ↦ 0 | some b ↦ b ]

unfoldable pub has_bank_conflict : ℤ → Contention → Bool
has_bank_conflict (negsuc b) s = false
has_bank_conflict (pos b) s =
    if ltb b s.num_banks then ltb 0 (get_or s.static_weight_count b 0) else false

-- What is recorded once the bank is chosen.
unfoldable pub record_allocation : ℤ → ℕ → ℕ → Contention → Contention
record_allocation token last bank s = record s {
  token_to_bank = insert token bank s.token_to_bank;
  dynamic_alloc_count = set s.dynamic_alloc_count bank (get_or s.dynamic_alloc_count bank 0 + 1);
  total_allocations = s.total_allocations + 1;
  allocation_order = s.allocation_order ++ (bank ∷ []);
  total_conflicts =
      if has_bank_conflict (pos bank) s then s.total_conflicts + 1 else s.total_conflicts;
  last_allocated_bank = last;
}

-- The bank that is chosen in a state, and the new value of the `static` variable.
unfoldable pub choose : Contention → ℕ × ℕ
choose s =
    let found =
      scan s.static_weight_count s.dynamic_alloc_count s.num_banks (s.num_banks * 2)
        s.last_allocated_bank in
    (best_bank s.dynamic_alloc_count s.num_banks found.0, found.1)

unfoldable pub allocate_kv_cache_bank : ℕ → ℤ → Contention → ℕ × Contention
unfolding choose record_allocation
allocate_kv_cache_bank kv_cache_size token s =
    let chosen = choose s in (chosen.0, record_allocation token chosen.1 chosen.0 s)

unfoldable pub get_kv_cache_bank : ℤ → Contention → ℤ
get_kv_cache_bank token s = elim (s.token_to_bank token) [ none ↦ minus_one | some b ↦ pos b ]

-- `std::count_if` over the weight counts.
unfoldable pub weight_banks : List ℕ → ℕ
weight_banks [] = 0
weight_banks (w ∷ ws) = (if ltb 0 w then 1 else 0) + weight_banks ws

unfoldable pub get_stats : Contention → List (String × ℕ)
unfolding weight_banks
get_stats s =
    ("total_allocations", s.total_allocations)
    ∷ ("total_conflicts", s.total_conflicts)
    ∷ ("weight_banks", weight_banks s.static_weight_count)
    ∷ []

unfoldable pub reset_stats : Contention → Contention
reset_stats s = record s {
  total_allocations = 0;
  total_conflicts = 0;
  dynamic_alloc_count = zeroes s.dynamic_alloc_count;
  allocation_order = [];
}
