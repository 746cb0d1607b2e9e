-- ===== src/Policy/Locality/Activity.antt =====
-- The bank activity that `SmartLocalityPolicy::set_static_weight_mapping` computes
-- (simulator/src/pim_codegen/kv_cache_policy.h).
use kvc_pim.Base.{
  ℕ, get_or, get_or-replicate, get_or-set_ne, get_or-set_self, if◌then◌else◌, length, length-set,
  ltb, replicate, set, ℤ, zero, suc, ◌+◌, ◌*◌, ◌/◌, ◌≤◌, ◌<◌, ◌≡◌, refl, ap, subst, ◌∙◌, ◌&&◌, List,
  [], ◌∷◌, arith, pos, negsuc, get_or-set-le, lt→ltb, sym, false,
}
use native.Mathlib.Decide.{ℕ_discrete}
use native.Mathlib.Nat.{div-le_of_le-mul}
use kvc_pim.Policy.Weights.{WeightMap, store_count, store_counts, weight_counts}
use kvc_pim.Policy.Locality.{
  Locality, in_range, max_weight_count, fill_activity, set_static_weight_mapping,
}

pub length-fill_activity :
    (weights : List ℕ) (most rounds bank : ℕ) (activity : List ℕ)
    → length (fill_activity weights most rounds bank activity) ≡ length activity
unfolding fill_activity
length-fill_activity weights most zero bank activity = refl
length-fill_activity weights most (suc rounds) bank activity =
    length-fill_activity weights most rounds (bank + 1) _
    ∙ length-set activity bank (get_or weights bank 0 * 100 / most)

-- The loop leaves the banks before it, and gives each bank that it visits its percentage.
get_or-fill_activity :
    (weights : List ℕ) (most rounds bank end : ℕ) (activity : List ℕ) (b : ℕ)
    → bank + rounds ≡ end
    → b < length activity
    → (b < bank
        → get_or (fill_activity weights most rounds bank activity) b 0 ≡ get_or activity b 0)
      × (bank ≤ b
          → b < end
          → get_or (fill_activity weights most rounds bank activity) b 0
            ≡ get_or weights b 0 * 100 / most)
unfolding fill_activity
get_or-fill_activity weights most zero bank end activity b e h =
    (λ p. refl, λ p q. absurd (omega arith))
get_or-fill_activity weights most (suc rounds) bank end activity b e h =
    let v : ℕ = get_or weights bank 0 * 100 / most in
    let rest =
      get_or-fill_activity weights most rounds (bank + 1) end (set activity bank v) b (omega arith)
        (omega (arith, length-set activity bank v)) in
    (
      λ p. rest.0 (omega arith) ∙ get_or-set_ne activity bank b v 0 (omega arith),
      λ p q. elim (ℕ_discrete bank b) [
        | yes here ↦
            rest.0 (omega arith)
            ∙ subst (λ k. get_or (set activity bank v) k 0 ≡ get_or weights k 0 * 100 / most) here
                (get_or-set_self activity bank v 0 (omega arith))
        | no ne ↦ rest.1 (omega arith) q
      ],
    )

get_or-store_count-le :
    (n : ℕ) (bank : ℤ) (size most : ℕ) (counts : List ℕ)
    → ((b : ℕ) → get_or counts b 0 ≤ most)
    → (b : ℕ)
    → get_or (store_count n bank size counts) b 0
      ≤ (if in_range n bank && ltb most size then size else most)
get_or-store_count-le n (negsuc j) size most counts h b = h b
get_or-store_count-le n (pos j) size most counts h b =
    ground (arith, h b, get_or-set-le counts j size b size, get_or-set-le counts j size b most)

-- No count exceeds the greatest.
get_or-store_counts-le :
    (n : ℕ) (m : WeightMap) (most : ℕ) (counts : List ℕ)
    → ((b : ℕ) → get_or counts b 0 ≤ most)
    → (b : ℕ) → get_or (store_counts n m counts) b 0 ≤ max_weight_count n m most
unfolding store_counts max_weight_count
get_or-store_counts-le n [] most counts h b = h b
get_or-store_counts-le n ((bank, addrs) ∷ m) most counts h b =
    get_or-store_counts-le n m _ (store_count n bank (length addrs) counts)
      (get_or-store_count-le n bank (length addrs) most counts h) b

pub weight_counts-le :
    (n : ℕ) (m : WeightMap) (b : ℕ) → get_or (weight_counts n m) b 0 ≤ max_weight_count n m 0
unfolding weight_counts
weight_counts-le n m =
    get_or-store_counts-le n m 0 (replicate n 0)
      (λ b. rw (get_or-replicate {A = ℕ} n b 0) (omega arith))

percent_le : (w most : ℕ) → w ≤ most → w * 100 / most ≤ 100
percent_le w most h = div-le_of_le-mul most (omega arith)

-- The two cases of a new mapping.
pub set_static_weight_mapping-activity :
    (m : WeightMap) (s : Locality)
    → length s.bank_activity ≡ s.num_banks
    → let t = set_static_weight_mapping m s in
      let most = max_weight_count s.num_banks m 0 in
      (0 < most
        → (b : ℕ) → b < s.num_banks
        → (get_or t.bank_activity b 0 ≡ get_or t.static_weight_count b 0 * 100 / most)
          × (get_or t.bank_activity b 0 ≤ 100))
      × (most ≡ 0
          → (t.bank_activity ≡ s.bank_activity) × ((b : ℕ) → get_or t.static_weight_count b 0 ≡ 0))
unfolding set_static_weight_mapping
set_static_weight_mapping-activity m s h = (
  λ some_weight b lt.
      let filled =
        (get_or-fill_activity weights most s.num_banks 0 s.num_banks s.bank_activity b (omega arith)
            (omega (arith, h))).1
          (omega arith) lt in
      rw (lt→ltb 0 most some_weight) (
        filled,
        subst (λ k. k ≤ 100) (sym filled)
            (percent_le (get_or weights b 0) most (weight_counts-le s.num_banks m b)),
      ),
  λ none_weight.
      let off : ltb 0 most ≡ false = ground arith in
      (rw off, λ b. omega (arith, weight_counts-le s.num_banks m b)),
)
  where
    weights : List ℕ
    weights = weight_counts s.num_banks m

    most : ℕ
    most = max_weight_count s.num_banks m 0

-- A new mapping with some weights in range gives every bank its percentage of the greatest weight
-- count, at most 100.
pub set_static_weight_mapping_percent :
    (m : WeightMap) (s : Locality) (b : ℕ)
    → length s.bank_activity ≡ s.num_banks
    → 0 < max_weight_count s.num_banks m 0
    → b < s.num_banks
    → let t = set_static_weight_mapping m s in
      (get_or t.bank_activity b 0
        ≡ get_or t.static_weight_count b 0 * 100 / max_weight_count s.num_banks m 0)
      × (get_or t.bank_activity b 0 ≤ 100)
set_static_weight_mapping_percent m s b e some_weight h =
    (set_static_weight_mapping-activity m s e).0 some_weight b h

length-mapped :
    (m : WeightMap) (s : Locality)
    → length s.bank_activity ≡ s.num_banks
    → 0 < max_weight_count s.num_banks m 0
    → length (set_static_weight_mapping m s).bank_activity ≡ s.num_banks
unfolding set_static_weight_mapping
length-mapped m s e some_weight = rw (lt→ltb 0 (max_weight_count s.num_banks m 0) some_weight) (
    length-fill_activity (weight_counts s.num_banks m) (max_weight_count s.num_banks m 0)
      s.num_banks 0 s.bank_activity
    ∙ e)

-- A new mapping without weights in range leaves the activity of the banks as the old mapping made it:
-- every bank keeps its percentage of the old mapping's greatest weight count, while its weight count
-- is 0.
pub set_static_weight_mapping_stale :
    (old new : WeightMap) (s : Locality) (b : ℕ)
    → length s.bank_activity ≡ s.num_banks
    → 0 < max_weight_count s.num_banks old 0
    → max_weight_count s.num_banks new 0 ≡ 0
    → b < s.num_banks
    → let t = set_static_weight_mapping new (set_static_weight_mapping old s) in
      (get_or t.bank_activity b 0
        ≡ get_or (weight_counts s.num_banks old) b 0 * 100 / max_weight_count s.num_banks old 0)
      × (get_or t.static_weight_count b 0 ≡ 0)
unfolding set_static_weight_mapping
set_static_weight_mapping_stale old new s b e some_weight no_weight lt =
    let after = set_static_weight_mapping old s in
    let made = set_static_weight_mapping-activity old s e in
    let kept =
      (set_static_weight_mapping-activity new after (length-mapped old s e some_weight)).1
        no_weight in
    (ap (λ l. get_or l b 0) kept.0 ∙ (made.0 some_weight b lt).0, kept.1 b)
