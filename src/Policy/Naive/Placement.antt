-- ===== src/Policy/Naive/Placement.antt =====
-- What `NaiveKVCachePolicy` of simulator/src/pim_codegen/kv_cache_policy.h guarantees.
use kvc_pim.Base.{
  ℕ, zero, suc, ◌+◌, ◌%◌, ◌<◌, ◌≤◌, ◌≡◌, refl, ◌∙◌, ap, sym, subst, List, [], ◌∷◌, arith, int_key,
  ℤ, pos, get_or, length, same_ℤ_iff,
}
use native.Mathlib.Nat.{mod-add-mod, mod-eq_of_lt}
use kvc_pim.Policy.Weights.{WeightMap}
use kvc_pim.Policy.Interface.{IkvCachePolicy, Placed, Contract}
use kvc_pim.Policy.Naive.{
  Naive, init, set_static_weight_mapping, has_bank_conflict, allocate_kv_cache_bank,
  get_kv_cache_bank, reset_stats,
}

-- The state over `n` banks.
pub record IsValid (n : ℕ) (s : Naive) : Type 0 where
  pub banks : s.num_banks ≡ pos n
  pub next : s.next_bank < n
  pub bounded : s.total_conflicts ≤ s.total_allocations

abbrev pub policy : IkvCachePolicy
policy = record {
  State = Naive;
  set_static_weight_mapping = set_static_weight_mapping;
  allocate_kv_cache_bank =
      λ size token s. let r = allocate_kv_cache_bank size token s in (pos r.0, r.1);
  get_kv_cache_bank = get_kv_cache_bank;
  has_bank_conflict = has_bank_conflict;
  total_allocations = λ s. s.total_allocations;
  total_conflicts = λ s. s.total_conflicts;
  reset_stats = reset_stats;
}

pub init-IsValid : (n : ℕ) (m : WeightMap) → 0 < n → IsValid n (init (pos n) m)
unfolding init
init-IsValid n m h = record { banks = refl; next = h; bounded = omega arith }

pub set_static_weight_mapping-IsValid :
    (n : ℕ) (m : WeightMap) (s : Naive) → IsValid n s → IsValid n (set_static_weight_mapping m s)
unfolding set_static_weight_mapping
set_static_weight_mapping-IsValid n m s v = ground arith

pub reset_stats-IsValid :
    (n : ℕ) (s : Naive)
    → IsValid n s
    → IsValid n (reset_stats s)
      × ((reset_stats s).total_allocations ≡ 0)
      × ((reset_stats s).total_conflicts ≡ 0)
unfolding reset_stats
reset_stats-IsValid n s v = ground arith

-- An allocation over `n` banks hands out the next bank and records it: the token is found there and
-- no other token moves, the counters grow as the bank holds weights, and the state stays valid.
pub naive-Placed :
    (n size : ℕ) (token : ℤ) (s : Naive)
    → IsValid n s
    → let r = allocate_kv_cache_bank size token s in
      (r.0 ≡ s.next_bank)
      × (r.1.next_bank ≡ (s.next_bank + 1) % n)
      × Placed policy token r.0 s r.1
      × IsValid n r.1
unfolding allocate_kv_cache_bank get_kv_cache_bank
naive-Placed n size token s v = (
  ground arith,
  ground arith,
  record {
    found = ground (arith, same_ℤ_iff token token);
    others = λ other ne. ground (arith, same_ℤ_iff token other);
    counted = ground arith;
    conflicts = ground arith;
  },
  ground arith,
)

unfoldable pub contract : (n : ℕ) → Contract policy n
contract n = record {
  IsValid = IsValid n;
  place = λ size token s v.
      let r = naive-Placed n size token s v in
      (
        (allocate_kv_cache_bank size token s).0,
        refl,
        subst (λ b. b < n) (sym r.0) v.next,
        r.2,
        r.3,
      );
  remap = set_static_weight_mapping-IsValid n;
  reset = reset_stats-IsValid n;
}

-- The banks that a list of tokens is given, in order.
abbrev pub banks_for : ℕ → List ℤ → Naive → List ℕ
banks_for size [] s = []
banks_for size (token ∷ tokens) s =
    let r = allocate_kv_cache_bank size token s in r.0 ∷ banks_for size tokens r.1

-- Round robin: from a valid state over `n` banks, the `i`-th token of any list of tokens is given the
-- bank `i` places after the next bank, modulo `n`.
pub get_or-banks_for :
    (n size : ℕ) (tokens : List ℤ) (i : ℕ) (s : Naive)
    → IsValid n s
    → i < length tokens
    → get_or (banks_for size tokens s) i 0 ≡ (s.next_bank + i) % n
get_or-banks_for n size [] i s v h = absurd (omega arith)
get_or-banks_for n size (token ∷ tokens) zero s v h =
    (naive-Placed n size token s v).0 ∙ sym (mod-eq_of_lt v.next) ∙ ap (λ k. k % n) (omega arith)
get_or-banks_for n size (token ∷ tokens) (suc i) s v h =
    let r = naive-Placed n size token s v in
    get_or-banks_for n size tokens i (allocate_kv_cache_bank size token s).1 r.3 (omega arith)
    ∙ ap (λ k. (k + i) % n) r.1
    ∙ mod-add-mod (s.next_bank + 1) n i
    ∙ ap (λ k. k % n) (omega arith)
