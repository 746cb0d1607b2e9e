-- ===== src/Policy/Locality.antt =====
-- `SmartLocalityPolicy` of simulator/src/pim_codegen/kv_cache_policy.h: the candidate bank of the
-- lowest score. The scores are `double`s, but every one is a whole number: a multiple of 100 plus a
-- multiple of 10, less 50.0 * 0.3, which rounds to 15.0. They are exact below 2 ^ 53.
pub mod Candidates
pub mod Choice
pub mod Activity
pub mod Placement
pub mod Balance
use kvc_pim.Base.{
  ℕ, zero, suc, ◌+◌, ◌*◌, ◌/◌, Bool, true, false, ◌&&◌, Option, none, some, List, [], ◌∷◌,
  if◌then◌else◌, int_key, ℤ, pos, negsuc, minus_one, leb_ℤ, ltb_ℤ, sub_ℕ, leb, ltb, ◌==◌, pos_part,
  Map, empty_map, insert, length, get_or, set, replicate, zeroes, is_empty,
}
use Prim.Native.String.{String}
use kvc_pim.Policy.Weights.{WeightMap, weight_counts}

pub record Locality : Type 0 where
  pub num_banks : ℕ
  pub token_to_bank : Map ℤ ℕ
  pub static_weight_mapping : WeightMap
  pub static_weight_count : List ℕ
  pub dynamic_alloc_count : List ℕ
  pub bank_activity : List ℕ
  pub total_allocations : ℕ
  pub total_conflicts : ℕ

abbrev pub usable_banks : ℤ → ℕ
usable_banks n = if leb_ℤ n (pos 0) then 1 else pos_part n

-- `bank_id >= 0 && bank_id < m_num_banks`
abbrev pub in_range : ℕ → ℤ → Bool
in_range n (pos b) = ltb b n
in_range n (negsuc b) = false

-- `max_weight_count` after the loop over the mapping.
unfoldable pub max_weight_count : ℕ → WeightMap → ℕ → ℕ
max_weight_count n [] most = most
max_weight_count n ((bank, addrs) ∷ m) most =
    max_weight_count n m (if in_range n bank && ltb most (length addrs) then length addrs else most)

-- The loop over the banks that fills `m_bank_activity`: rounds left, bank.
unfoldable pub fill_activity : List ℕ → ℕ → ℕ → ℕ → List ℕ → List ℕ
fill_activity weights most zero bank activity = activity
fill_activity weights most (suc rounds) bank activity =
    fill_activity weights most rounds (bank + 1)
      (set activity bank (get_or weights bank 0 * 100 / most))

unfoldable pub set_static_weight_mapping : WeightMap → Locality → Locality
unfolding weight_counts max_weight_count fill_activity
set_static_weight_mapping mapping s =
    let weights = weight_counts s.num_banks mapping in
    let most = max_weight_count s.num_banks mapping 0 in
    record s {
      static_weight_mapping = mapping;
      static_weight_count = weights;
      bank_activity =
          if ltb 0 most
          then fill_activity weights most s.num_banks 0 s.bank_activity
          else s.bank_activity;
    }

-- The fields before `init` calls the setter.
abbrev pub fresh : ℤ → Locality
fresh num_banks = record {
  num_banks = usable_banks num_banks;
  token_to_bank = empty_map;
  static_weight_mapping = [];
  static_weight_count = [];
  dynamic_alloc_count = replicate (usable_banks num_banks) 0;
  bank_activity = replicate (usable_banks num_banks) 0;
  total_allocations = 0;
  total_conflicts = 0;
}

unfoldable pub init : ℤ → WeightMap → Locality
unfolding set_static_weight_mapping
init num_banks mapping = set_static_weight_mapping mapping (fresh num_banks)

-- Step 1: the banks without weights. Rounds left, bank.
unfoldable pub weight_free_banks : List ℕ → ℕ → ℕ → List ℕ
weight_free_banks weights zero bank = []
weight_free_banks weights (suc rounds) bank =
    let rest = weight_free_banks weights rounds (bank + 1) in
    if get_or weights bank 0 == 0 then bank ∷ rest else rest

-- Step 2: all banks.
unfoldable pub all_banks : ℕ → ℕ → List ℕ
all_banks zero bank = []
all_banks (suc rounds) bank = bank ∷ all_banks rounds (bank + 1)

unfoldable pub candidate_banks : Locality → List ℕ
unfolding weight_free_banks all_banks
candidate_banks s =
    let free = weight_free_banks s.static_weight_count s.num_banks 0 in
    if is_empty free then all_banks s.num_banks 0 else free

-- The score of a bank; 50.0 * m_locality_weight is 15.
unfoldable pub score : Locality → ℕ → ℤ
score s bank =
    let activity = get_or s.bank_activity bank 0 in
    sub_ℕ (get_or s.static_weight_count bank 0 * 100 + get_or s.dynamic_alloc_count bank 0 * 10)
      (if leb 20 activity && leb activity 80 then 15 else 0)

-- `score < best_score`, where `none` is the greatest `double`.
abbrev pub beats : ℤ → Option ℤ → Bool
beats score none = true
beats score (some best) = ltb_ℤ score best

-- Step 3: the loop over the candidates, with the best score and the best bank so far.
unfoldable pub best_of : Locality → List ℕ → Option ℤ → ℕ → ℕ
best_of s [] best_score best_bank = best_bank
best_of s (bank ∷ banks) best_score best_bank =
    let better = beats (score s bank) best_score in
    best_of s banks (if better then some (score s bank) else best_score)
      (if better then bank else best_bank)

-- `candidate_banks[0]`; the candidates are never empty.
abbrev pub first : List ℕ → ℕ
first [] = 0
first (bank ∷ banks) = bank

unfoldable pub choose : Locality → ℕ
unfolding candidate_banks best_of
choose s = best_of s (candidate_banks s) none (first (candidate_banks s))

unfoldable pub has_bank_conflict : ℤ → Locality → Bool
has_bank_conflict (negsuc b) s = false
has_bank_conflict (pos b) s =
    if ltb b s.num_banks then ltb 0 (get_or s.static_weight_count b 0) else false

unfoldable pub record_allocation : ℤ → ℕ → Locality → Locality
record_allocation token bank s = record s {
  token_to_bank = insert token bank s.token_to_bank;
  dynamic_alloc_count = set s.dynamic_alloc_count bank (get_or s.dynamic_alloc_count bank 0 + 1);
  total_allocations = s.total_allocations + 1;
  total_conflicts =
      if has_bank_conflict (pos bank) s then s.total_conflicts + 1 else s.total_conflicts;
}

unfoldable pub allocate_kv_cache_bank : ℕ → ℤ → Locality → ℕ × Locality
unfolding choose record_allocation
allocate_kv_cache_bank kv_cache_size token s = (choose s, record_allocation token (choose s) s)

unfoldable pub get_kv_cache_bank : ℤ → Locality → ℤ
get_kv_cache_bank token s = elim (s.token_to_bank token) [ none ↦ minus_one | some b ↦ pos b ]

-- `banks_with_kv` or `banks_with_weights`: the banks of a positive count.
unfoldable pub used_banks : List ℕ → ℕ
used_banks [] = 0
used_banks (c ∷ cs) = (if ltb 0 c then 1 else 0) + used_banks cs

unfoldable pub total_count : List ℕ → ℕ
total_count [] = 0
total_count (c ∷ cs) = c + total_count cs

-- `percent total banks` is the `double` average times 100, cut to an integer.
unfoldable pub get_stats : (ℕ → ℕ → ℕ) → Locality → List (String × ℕ)
unfolding used_banks total_count
get_stats percent s =
    let kv_banks = used_banks s.dynamic_alloc_count in
    ("total_allocations", s.total_allocations)
    ∷ ("total_conflicts", s.total_conflicts)
    ∷ ("weight_banks", used_banks s.static_weight_count)
    ∷ ("kv_banks", kv_banks)
    ∷ (
      "avg_kv_per_bank",
      if ltb 0 kv_banks then percent (total_count s.dynamic_alloc_count) kv_banks else 0,
    )
    ∷ []

unfoldable pub reset_stats : Locality → Locality
reset_stats s = record s {
  total_allocations = 0;
  total_conflicts = 0;
  dynamic_alloc_count = zeroes s.dynamic_alloc_count;
}
