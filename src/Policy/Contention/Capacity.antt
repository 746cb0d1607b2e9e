-- ===== src/Policy/Contention/Capacity.antt =====
-- How long `ContentionAwarePolicy` avoids the banks with weights
-- (simulator/src/pim_codegen/kv_cache_policy.h).
use kvc_pim.Base.{
  ℕ, Bool-cases, get_or, if◌then◌else◌, length, ltb, set, ℤ, ◌==◌, zero, suc, ◌+◌, ◌-◌, ◌*◌, ◌<◌,
  ◌≡◌, inl, inr, true, ◌&&◌, List, [], ◌∷◌, arith, Option-cases, replicate, ◌≤◌, refl, sym, subst,
  ◌∙◌, false, pos,
}
use kvc_pim.Policy.Weights.{WeightMap, weight_counts}
use kvc_pim.Policy.Weights.Counts.{length-weight_counts}
use kvc_pim.Policy.Contention.{
  Contention, init, has_bank_conflict, scan, best_bank, choose, record_allocation,
  allocate_kv_cache_bank, int_max, is_good,
}
use kvc_pim.Policy.Contention.Scan.{scan-IsGood, scan_finds}
use kvc_pim.Policy.Contention.Fewest.{IsLeast, fewest_lem}
use mathlib.Core.Bool.{false≢true}
use kvc_pim.Policy.Contention.Placement.{usable, init-IsValid, IsValid, contention-Placed}

-- The allocations that the banks without weights can still take, three to a bank.
pub room : List ℕ → List ℕ → ℕ
room [] allocs = 0
room (w ∷ ws) [] = 0
room (w ∷ ws) (a ∷ as') = (if w == 0 then 3 - a else 0) + room ws as'

room-good :
    (weights allocs : List ℕ)
    → 0 < room weights allocs
    → (b : ℕ) × (b < length allocs) × (is_good weights allocs b ≡ true)
unfolding room
room-good [] allocs h = absurd (omega arith)
room-good (w ∷ ws) [] h = absurd (omega arith)
room-good (w ∷ ws) (a ∷ as') h = elim (Bool-cases (w == 0 && ltb a 3)) [
  | inl good ↦ (0, omega arith, good)
  | inr bad ↦
      let rest = room-good ws as' (ground arith) in (suc rest.0, omega (arith, rest.1), rest.2)
]

room-set :
    (weights allocs : List ℕ) (b : ℕ)
    → b < length weights
    → b < length allocs
    → is_good weights allocs b ≡ true
    → room weights (set allocs b (get_or allocs b 0 + 1)) + 1 ≡ room weights allocs
unfolding room
room-set [] allocs b p q h = absurd (omega arith)
room-set (w ∷ ws) [] b p q h = absurd (omega arith)
room-set (w ∷ ws) (a ∷ as') zero p q h = ground arith
room-set (w ∷ ws) (a ∷ as') (suc b) p q h =
    omega (arith, room-set ws as' b (omega arith) (omega arith) h)

-- The room left in a state.
abbrev pub room_of : Contention → ℕ
room_of s = room s.static_weight_count s.dynamic_alloc_count

choose-good :
    (n : ℕ) (s : Contention)
    → IsValid n s
    → 0 < room_of s
    → is_good s.static_weight_count s.dynamic_alloc_count (choose s).0 ≡ true
unfolding choose
choose-good n s v h =
    let good = room-good s.static_weight_count s.dynamic_alloc_count h in
    let found =
      scan_finds s.static_weight_count s.dynamic_alloc_count s.num_banks (s.num_banks * 2)
        s.last_allocated_bank good.0 (omega arith) (omega (arith, good.1, v.allocs, v.banks))
        good.2 in
    rw (found.1, best_bank)
      (scan-IsGood s.static_weight_count s.dynamic_alloc_count s.num_banks (s.num_banks * 2)
        s.last_allocated_bank found.0 (omega (arith, v.banks, v.some_bank)) found.1).1

-- While there is room, an allocation goes to a bank without weights that holds fewer than three KV
-- caches: it is no conflict, it uses up one place, and the weights stay.
pub allocate-room :
    (n size : ℕ) (token : ℤ) (s : Contention)
    → IsValid n s
    → 0 < room_of s
    → let r = allocate_kv_cache_bank size token s in
      (get_or s.static_weight_count r.0 0 ≡ 0)
      × (get_or s.dynamic_alloc_count r.0 0 < 3)
      × (r.1.total_conflicts ≡ s.total_conflicts)
      × (room_of r.1 + 1 ≡ room_of s)
unfolding allocate_kv_cache_bank record_allocation has_bank_conflict
allocate-room n size token s v h =
    let good = choose-good n s v h in
    let lt = (contention-Placed n size token s v).0 in
    (
      ground arith,
      ground arith,
      ground arith,
      room-set s.static_weight_count s.dynamic_alloc_count (choose s).0
          (omega (arith, lt, v.weights)) (omega (arith, lt, v.allocs)) good,
    )

abbrev pub allocate_all : ℕ → List ℤ → Contention → Contention
allocate_all size [] s = s
allocate_all size (token ∷ tokens) s =
    allocate_all size tokens (allocate_kv_cache_bank size token s).1

-- No conflict occurs as long as the tokens do not outnumber the room.
allocate_all-room :
    (n size : ℕ) (tokens : List ℤ) (s : Contention)
    → IsValid n s
    → length tokens ≤ room_of s
    → (allocate_all size tokens s).total_conflicts ≡ s.total_conflicts
allocate_all-room n size [] s v h = refl
allocate_all-room n size (token ∷ tokens) s v h =
    let r = allocate-room n size token s v (omega arith) in
    allocate_all-room n size tokens (allocate_kv_cache_bank size token s).1
      (contention-Placed n size token s v).2 (omega (arith, r.3))
    ∙ r.2

-- The banks of weight count 0.
unfoldable pub weight_free : List ℕ → ℕ
weight_free [] = 0
weight_free (w ∷ ws) = (if w == 0 then 1 else 0) + weight_free ws

room-replicate :
    (weights : List ℕ) → room weights (replicate (length weights) 0) ≡ 3 * weight_free weights
unfolding room weight_free
room-replicate [] = omega arith
room-replicate (w ∷ ws) = ground (arith, room-replicate ws)

room_of-init :
    (n : ℕ) (m : WeightMap) → 0 < n → room_of (init (pos n) m) ≡ 3 * weight_free (weight_counts n m)
unfolding init
room_of-init n m h = rw (usable n h) (
    subst (λ k. room (weight_counts n m) (replicate k 0) ≡ 3 * weight_free (weight_counts n m))
      (length-weight_counts n m) (room-replicate (weight_counts n m)))

-- From a fresh policy over `n` banks, the first allocations cause no conflict at all, up to three for
-- each bank without weights, whatever the tokens are.
pub allocate_all-no-conflict :
    (n size : ℕ) (m : WeightMap) (tokens : List ℤ)
    → 0 < n
    → length tokens ≤ 3 * weight_free (weight_counts n m)
    → (allocate_all size tokens (init (pos n) m)).total_conflicts ≡ 0
allocate_all-no-conflict n size m tokens h few =
    allocate_all-room n size tokens (init (pos n) m) (init-IsValid n m h)
      (omega (arith, room_of-init n m h))
    ∙ fresh
  where
    fresh : (init (pos n) m).total_conflicts ≡ 0
    fresh = unfold init in refl

-- When no bank is without weights and holds fewer than three KV caches, the bank with the fewest KV
-- caches is taken, weights or not (the counts being below the greatest `int`).
pub choose-IsLeast :
    (n : ℕ) (s : Contention)
    → IsValid n s
    → ((b : ℕ) → b < n → is_good s.static_weight_count s.dynamic_alloc_count b ≡ false)
    → get_or s.dynamic_alloc_count 0 0 < int_max
    → IsLeast s.dynamic_alloc_count n (choose s).0
unfolding choose
choose-IsLeast n s v full small =
    elim (Option-cases
      (scan s.static_weight_count s.dynamic_alloc_count s.num_banks (s.num_banks * 2)
        s.last_allocated_bank).0) [
          | inl e ↦
              rw (e, best_bank)
                (let r =
                    fewest_lem s.dynamic_alloc_count s.num_banks
                      (omega (arith, v.banks, v.some_bank)) small in
                  rw r.1 (subst (λ k. IsLeast s.dynamic_alloc_count k r.0) v.banks r.2))
          | inr (b, e) ↦
              let good =
                scan-IsGood s.static_weight_count s.dynamic_alloc_count s.num_banks
                  (s.num_banks * 2) s.last_allocated_bank b (omega (arith, v.banks, v.some_bank))
                  e in
              absurd (false≢true (sym (full b (omega (arith, good.0, v.banks))) ∙ good.1))
        ]
