-- ===== src/Policy/Locality/Balance.antt =====
-- `SmartLocalityPolicy` spreads the KV caches evenly
-- (simulator/src/pim_codegen/kv_cache_policy.h).
use kvc_pim.Base.{
  ℕ, get_or, set, ℤ, ◌≤ℤ◌, ◌+◌, ◌*◌, ◌≤◌, ◌<◌, ◌≡◌, subst, List, arith, pos, get_or-set-le, zero,
  suc, refl, ap, ◌∙◌, [], ◌∷◌, get_or-replicate, length-replicate, ◌/◌, inl, inr,
}
use native.Mathlib.Nat.{zero-div, eq-zero-or-pos}
use kvc_pim.Policy.Weights.{WeightMap, weight_counts}
use kvc_pim.Policy.Locality.{
  Locality, usable_banks, init, fresh, choose, score, record_allocation, allocate_kv_cache_bank,
  max_weight_count,
}
use kvc_pim.Policy.Locality.Choice.{choose-lt, choose_of_free}
use kvc_pim.Policy.Locality.Activity.{set_static_weight_mapping-activity}
use kvc_pim.Policy.Locality.Placement.{
  IsValid, usable, init-IsValid, locality-Placed, allocate_of_free,
}

abbrev pub IsFree : Locality → ℕ → Type 0
IsFree s b = get_or s.static_weight_count b 0 ≡ 0

-- No bank without weights counts as active, and the KV caches of two such banks differ by at most one.
pub record Even (n : ℕ) (s : Locality) : Type 0 where
  pub quiet : (b : ℕ) → b < n → IsFree s b → get_or s.bank_activity b 0 ≡ 0
  pub close :
      (b c : ℕ)
      → b < n
      → c < n
      → IsFree s b
      → IsFree s c
      → get_or s.dynamic_alloc_count b 0 ≤ get_or s.dynamic_alloc_count c 0 + 1

score_of_free :
    (s : Locality) (b : ℕ)
    → IsFree s b
    → get_or s.bank_activity b 0 ≡ 0
    → score s b ≡ pos (get_or s.dynamic_alloc_count b 0 * 10)
unfolding score
score_of_free s b free quiet = ground arith

-- The chosen bank has the fewest KV caches among the banks without weights.
choose-fewest :
    (n : ℕ) (s : Locality) (b : ℕ)
    → IsValid n s
    → Even n s
    → b < n
    → IsFree s b
    → get_or s.dynamic_alloc_count (choose s) 0 ≤ get_or s.dynamic_alloc_count b 0
choose-fewest n s b v even h free =
    let c = choose_of_free s b (omega (arith, h, v.banks)) free in
    let lt : choose s < n =
      subst (λ k. choose s < k) v.banks (choose-lt s (omega (arith, v.banks, v.some_bank))) in
    let le : pos (get_or s.dynamic_alloc_count (choose s) 0 * 10)
        ≤ℤ pos (get_or s.dynamic_alloc_count b 0 * 10) =
      subst (λ z. z ≤ℤ pos (get_or s.dynamic_alloc_count b 0 * 10))
        (score_of_free s (choose s) c.0 (even.quiet (choose s) lt c.0))
        (subst (λ z. score s (choose s) ≤ℤ z) (score_of_free s b free (even.quiet b h free)) c.1) in
    omega arith

get_or-le-bump :
    (counts : List ℕ) (c j : ℕ)
    → get_or counts j 0 ≤ get_or (set counts c (get_or counts c 0 + 1)) j 0
get_or-le-bump [] c j = omega arith
get_or-le-bump (x ∷ xs) zero zero = omega arith
get_or-le-bump (x ∷ xs) zero (suc j) = omega arith
get_or-le-bump (x ∷ xs) (suc c) zero = omega arith
get_or-le-bump (x ∷ xs) (suc c) (suc j) = get_or-le-bump xs c j

-- One more at a least place keeps two entries within one.
bump_close :
    (counts : List ℕ) (c i j : ℕ)
    → get_or counts i 0 ≤ get_or counts j 0 + 1
    → get_or counts c 0 ≤ get_or counts j 0
    → get_or (set counts c (get_or counts c 0 + 1)) i 0
      ≤ get_or (set counts c (get_or counts c 0 + 1)) j 0 + 1
bump_close counts c i j close least = omega (
  arith,
  get_or-set-le counts c (get_or counts c 0 + 1) i (get_or counts j 0 + 1) (omega arith) close,
  get_or-le-bump counts c j,
)

-- Each allocation keeps the balance, if some bank holds no weights.
allocate-Even :
    (n size : ℕ) (token : ℤ) (s : Locality) (b : ℕ)
    → IsValid n s
    → Even n s
    → b < n
    → IsFree s b
    → Even n (allocate_kv_cache_bank size token s).1
unfolding allocate_kv_cache_bank record_allocation
allocate-Even n size token s b v even h free = record {
  quiet = even.quiet;
  close = λ i j p q free_i free_j.
      bump_close s.dynamic_alloc_count (choose s) i j (even.close i j p q free_i free_j)
        (choose-fewest n s j v even q free_j);
}

init-Even : (n : ℕ) (m : WeightMap) → 0 < n → Even n (init (pos n) m)
unfolding init
init-Even n m h = record {
  quiet = λ b p free. elim (eq-zero-or-pos most) [
    | inl z ↦ ap (λ xs. get_or xs b 0) (activity.1 z).0 ∙ get_or-replicate {A = ℕ} banks b 0
    | inr some_weight ↦
        (activity.0 some_weight b (omega (arith, usable n h))).0
        ∙ ap (λ w. w * 100 / most) free
        ∙ zero-div most
  ];
  close = λ b c p q free_b free_c. rw (get_or-replicate {A = ℕ} banks b 0) (omega arith);
}
  where
    banks : ℕ
    banks = usable_banks (pos n)

    most : ℕ
    most = max_weight_count banks m 0

    activity :
        (0 < most
          → (b : ℕ) → b < banks
          → (get_or (init (pos n) m).bank_activity b 0
              ≡ get_or (init (pos n) m).static_weight_count b 0 * 100 / most)
            × (get_or (init (pos n) m).bank_activity b 0 ≤ 100))
        × (most ≡ 0
            → ((init (pos n) m).bank_activity ≡ (fresh (pos n)).bank_activity)
              × ((b : ℕ) → get_or (init (pos n) m).static_weight_count b 0 ≡ 0))
    activity =
        set_static_weight_mapping-activity m (fresh (pos n))
          (length-replicate (usable_banks (pos n)) 0)

init_fields :
    (n : ℕ) (m : WeightMap)
    → 0 < n
    → ((init (pos n) m).static_weight_count ≡ weight_counts n m)
      × ((init (pos n) m).total_conflicts ≡ 0)
unfolding init
init_fields n m h = (ap (λ k. weight_counts k m) (usable n h), refl)

abbrev pub allocate_all : ℕ → List ℤ → Locality → Locality
allocate_all size [] s = s
allocate_all size (token ∷ tokens) s =
    allocate_all size tokens (allocate_kv_cache_bank size token s).1

allocate_all-Even :
    (n size : ℕ) (tokens : List ℤ) (s : Locality) (b : ℕ)
    → IsValid n s
    → Even n s
    → b < n
    → IsFree s b
    → Even n (allocate_all size tokens s)
      × ((allocate_all size tokens s).total_conflicts ≡ s.total_conflicts)
      × ((allocate_all size tokens s).static_weight_count ≡ s.static_weight_count)
allocate_all-Even n size [] s b v even h free = (even, refl, refl)
allocate_all-Even n size (token ∷ tokens) s b v even h free =
    let one = allocate_of_free n size token s b v h free in
    let rest =
      allocate_all-Even n size tokens (allocate_kv_cache_bank size token s).1 b
        (locality-Placed n size token s v).2 (allocate-Even n size token s b v even h free) h
        (ap (λ ws. get_or ws b 0) one.2 ∙ free) in
    (rest.0, rest.1 ∙ one.1, rest.2 ∙ one.2)

-- From a fresh policy over `n` banks, one of them without weights, any list of tokens is placed with
-- no conflict, and the KV caches of any two banks without weights differ by at most one.
pub allocate_all_balanced :
    (n size : ℕ) (m : WeightMap) (tokens : List ℤ) (b : ℕ)
    → b < n
    → get_or (weight_counts n m) b 0 ≡ 0
    → let s = allocate_all size tokens (init (pos n) m) in
      (s.total_conflicts ≡ 0)
      × ((i j : ℕ)
          → i < n
          → j < n
          → get_or (weight_counts n m) i 0 ≡ 0
          → get_or (weight_counts n m) j 0 ≡ 0
          → get_or s.dynamic_alloc_count i 0 ≤ get_or s.dynamic_alloc_count j 0 + 1)
allocate_all_balanced n size m tokens b h free =
    let pos_n : 0 < n = omega arith in
    let fields = init_fields n m pos_n in
    let to_free =
      λ (ws : List ℕ) (e : ws ≡ weight_counts n m) (i : ℕ) (f : get_or (weight_counts n m) i 0 ≡ 0).
        ap (λ ws. get_or ws i 0) e ∙ f in
    let r =
      allocate_all-Even n size tokens (init (pos n) m) b (init-IsValid n m pos_n)
        (init-Even n m pos_n) h (to_free _ fields.0 b free) in
    (
      r.1 ∙ fields.1,
      λ i j p q free_i free_j.
          r.0.close i j p q (to_free _ (r.2 ∙ fields.0) i free_i)
            (to_free _ (r.2 ∙ fields.0) j free_j),
    )
