-- ===== src/Policy/Weights/Counts.antt =====
-- The count vector against the mapping that it is made from
-- (`set_static_weight_mapping` of simulator/src/pim_codegen/kv_cache_policy.h).
use kvc_pim.Base.{
  ℕ, ◌<◌, ◌≡◌, refl, false, not, Option, none, some, List, [], ◌∷◌, arith, ltb, int_key, length,
  get_or, replicate, get_or-set_self, get_or-set_ne, length-set, length-replicate, get_or-replicate,
  ap, ℤ, pos, negsuc, lookup, is_empty, ◌∙◌,
}
use kvc_pim.Policy.Weights.{
  WeightMap, DistinctKeys, has_weights, store_count, store_counts, weight_counts,
}

pub length-store_count :
    (n : ℕ) (bank : ℤ) (size : ℕ) (counts : List ℕ)
    → length (store_count n bank size counts) ≡ length counts
length-store_count n (pos b) size counts = ground (arith, length-set counts b size)
length-store_count n (negsuc b) size counts = refl

pub length-store_counts :
    (n : ℕ) (m : WeightMap) (counts : List ℕ) → length (store_counts n m counts) ≡ length counts
unfolding store_counts
length-store_counts n [] counts = refl
length-store_counts n ((bank, addrs) ∷ m) counts =
    length-store_counts n m (store_count n bank (length addrs) counts)
    ∙ length-store_count n bank (length addrs) counts

pub length-weight_counts : (n : ℕ) (m : WeightMap) → length (weight_counts n m) ≡ n
unfolding weight_counts
length-weight_counts n m = length-store_counts n m (replicate n 0) ∙ length-replicate n 0

-- The count that the mapping gives a bank, or else `d`.
abbrev pub size_or : Option (List ℕ) → ℕ → ℕ
size_or none d = d
size_or (some addrs) d = length addrs

get_or-store_counts :
    (n : ℕ) (m : WeightMap) (counts : List ℕ) (b : ℕ)
    → length counts ≡ n
    → b < n
    → DistinctKeys m
    → get_or (store_counts n m counts) b 0 ≡ size_or (lookup (pos b) m) (get_or counts b 0)
unfolding store_counts
get_or-store_counts n [] counts b e h d = refl
get_or-store_counts n ((negsuc j, addrs) ∷ m) counts b e h d =
    get_or-store_counts n m counts b e h d.1
get_or-store_counts n ((pos j, addrs) ∷ m) counts b e h d = ground (
  arith,
  get_or-store_counts n m (store_count n (pos j) (length addrs) counts) b
      (length-store_count n (pos j) (length addrs) counts ∙ e),
  get_or-set_self counts j (length addrs) 0,
  get_or-set_ne counts j b (length addrs) 0,
)

pub get_or-weight_counts :
    (n : ℕ) (m : WeightMap) (b : ℕ)
    → b < n
    → DistinctKeys m
    → get_or (weight_counts n m) b 0 ≡ size_or (lookup (pos b) m) 0
unfolding weight_counts
get_or-weight_counts n m b h d =
    get_or-store_counts n m (replicate n 0) b (length-replicate n 0) h d
    ∙ ap (size_or (lookup (pos b) m)) (get_or-replicate {A = ℕ} n b 0)

-- The count of a bank is positive exactly when the mapping holds an address for it.
pub positive-weight_counts :
    (n : ℕ) (m : WeightMap) (b : ℕ)
    → b < n
    → DistinctKeys m
    → ltb 0 (get_or (weight_counts n m) b 0) ≡ has_weights (pos b) m
unfolding has_weights
positive-weight_counts n m b h d = rw (get_or-weight_counts n m b h d) (sized (lookup (pos b) m))
  where
    sized :
        (o : Option (List ℕ))
        → ltb 0 (size_or o 0) ≡ elim o [ none ↦ false | some addrs ↦ not (is_empty addrs) ]
    sized none = refl
    sized (some []) = refl
    sized (some (a ∷ rest)) = ground arith
