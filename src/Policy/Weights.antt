-- ===== src/Policy/Weights.antt =====
-- The static weight mapping of kv_cache_policy.h, `std::map<int, std::unordered_set<uint64_t>>`, and
-- the vector of weight counts that two of the policies derive from it
-- (simulator/src/pim_codegen/kv_cache_policy.h).
pub mod Counts
use kvc_pim.Base.{
  ℕ, ◌≡◌, Bool, false, not, none, some, List, [], ◌∷◌, ltb, if◌then◌else◌, int_key, length, set,
  replicate, ℤ, pos, negsuc, lookup, is_empty,
}

-- The keys of the list are distinct, as those of a `std::map` are.
abbrev pub WeightMap : Type 0
WeightMap = List (ℤ × List ℕ)

-- `it != end() && !it->second.empty()`
unfoldable pub has_weights : ℤ → WeightMap → Bool
has_weights bank m = elim (lookup bank m) [ none ↦ false | some addrs ↦ not (is_empty addrs) ]

-- `if (bank_id >= 0 && bank_id < m_num_banks) m_static_weight_count[bank_id] = size`
abbrev pub store_count : ℕ → ℤ → ℕ → List ℕ → List ℕ
store_count n (pos b) size counts = if ltb b n then set counts b size else counts
store_count n (negsuc b) size counts = counts

-- The loop over the mapping.
unfoldable pub store_counts : ℕ → WeightMap → List ℕ → List ℕ
store_counts n [] counts = counts
store_counts n ((bank, addrs) ∷ m) counts =
    store_counts n m (store_count n bank (length addrs) counts)

-- `assign(m_num_banks, 0)` and the loop.
unfoldable pub weight_counts : ℕ → WeightMap → List ℕ
unfolding store_counts
weight_counts n m = store_counts n m (replicate n 0)

-- No key occurs twice.
abbrev pub DistinctKeys : WeightMap → Type 0
DistinctKeys [] = Unit {0}
DistinctKeys ((bank, addrs) ∷ m) = (lookup bank m ≡ none) × DistinctKeys m
