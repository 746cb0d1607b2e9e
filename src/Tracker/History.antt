-- ===== src/Tracker/History.antt =====
-- What `BankConflictTracker` remembers of its calls
-- (simulator/src/memory_system/bank_conflict_tracker.h): every bank that was ever used, and nothing
-- of the operations' completion.
use kvc_pim.Base.{
  ℕ, Map, ◌==◌, ◌≡◌, Bool, false, ◌||◌, List, [], ◌∷◌, pos, at_or, is_empty, set_insert, ◌<◌, refl,
  ap, ◌∙◌, arith, negsuc, Bool-cases, if◌then◌else◌, ◌+◌, inl, inr, not, ◌&&◌, sym, some,
}
use kvc_pim.Tracker.{
  Tracker, create, bank_in, in_use, use_addr, has_potential_conflict, register_weight_operation,
  register_kv_cache_operation, Call, weight_op, kv_op, weight_done, kv_done, reset, step, run,
}

-- Some weight operation, or some KV cache operation, of the calls was on the bank.
abbrev pub weight_used : ℕ → List Call → Bool
weight_used b [] = false
weight_used b (weight_op (pos j) addr cycle ∷ cs) = j == b || weight_used b cs
weight_used b (c ∷ cs) = weight_used b cs

abbrev pub kv_used : ℕ → List Call → Bool
kv_used b [] = false
kv_used b (kv_op (pos j) addr cycle ∷ cs) = j == b || kv_used b cs
kv_used b (c ∷ cs) = kv_used b cs

insert-nonempty : (a : ℕ) (xs : List ℕ) → is_empty (set_insert a xs) ≡ false
insert-nonempty a [] = refl
insert-nonempty a (x ∷ xs) = ground arith

module _ (b : ℕ) (usage : Map ℕ (List ℕ)) where
  in_use-some : (addrs : List ℕ) → usage b ≡ some addrs → in_use b usage ≡ not (is_empty addrs)
  in_use-some addrs e = rw (e, in_use)

  in_use_same : (old : Map ℕ (List ℕ)) → usage b ≡ old b → in_use b usage ≡ in_use b old
  in_use_same old e = rw (e, in_use)

in_use_after :
    (b j addr : ℕ) (usage : Map ℕ (List ℕ))
    → in_use b (use_addr j addr usage) ≡ (j == b || in_use b usage)
in_use_after b j addr usage = elim (Bool-cases (j == b)) [
  | inl e ↦
      in_use-some b (use_addr j addr usage) (set_insert addr (at_or j [] usage)) (rw e)
      ∙ ap not (insert-nonempty addr (at_or j [] usage))
      ∙ ap (λ v. v || in_use b usage) (sym e)
  | inr e ↦
      in_use_same b (use_addr j addr usage) usage (rw e) ∙ ap (λ v. v || in_use b usage) (sym e)
]

||_regroup : (a w c d : Bool) → d ≡ (w || c) → (a || w || c) ≡ (a || d)
||_regroup a w c d h = ground arith

module _ (n b : ℕ) (h : b < n) where
  -- One call, on a tracker over `n` banks.
  step_used :
      (t : Tracker) (c : Call)
      → t.num_banks ≡ pos n
      → ((step t c).num_banks ≡ pos n)
        × (in_use b (step t c).weight_bank_usage
            ≡ (in_use b t.weight_bank_usage || weight_used b (c ∷ [])))
        × (in_use b (step t c).kv_cache_bank_usage
            ≡ (in_use b t.kv_cache_bank_usage || kv_used b (c ∷ [])))
  unfolding step
  step_used t (weight_op (negsuc j) addr cycle) e = ground arith
  step_used t (weight_op (pos j) addr cycle) e =
      ground (arith, in_use_after b j addr t.weight_bank_usage)
  step_used t (kv_op (negsuc j) addr cycle) e = ground arith
  step_used t (kv_op (pos j) addr cycle) e =
      ground (arith, in_use_after b j addr t.kv_cache_bank_usage)
  step_used t (weight_done bank addr) e = ground arith
  step_used t (kv_done bank addr) e = ground arith
  step_used t reset e = ground arith

  weight_used_cons :
      (c : Call) (cs : List Call)
      → weight_used b (c ∷ cs) ≡ (weight_used b (c ∷ []) || weight_used b cs)
  weight_used_cons (weight_op (pos j) addr cycle) cs = ground arith
  weight_used_cons (weight_op (negsuc j) addr cycle) cs = refl
  weight_used_cons (kv_op bank addr cycle) cs = refl
  weight_used_cons (weight_done bank addr) cs = refl
  weight_used_cons (kv_done bank addr) cs = refl
  weight_used_cons reset cs = refl

  kv_used_cons :
      (c : Call) (cs : List Call) → kv_used b (c ∷ cs) ≡ (kv_used b (c ∷ []) || kv_used b cs)
  kv_used_cons (kv_op (pos j) addr cycle) cs = ground arith
  kv_used_cons (kv_op (negsuc j) addr cycle) cs = refl
  kv_used_cons (weight_op bank addr cycle) cs = refl
  kv_used_cons (weight_done bank addr) cs = refl
  kv_used_cons (kv_done bank addr) cs = refl
  kv_used_cons reset cs = refl

  run_used :
      (t : Tracker) (cs : List Call)
      → t.num_banks ≡ pos n
      → ((run t cs).num_banks ≡ pos n)
        × (in_use b (run t cs).weight_bank_usage
            ≡ (in_use b t.weight_bank_usage || weight_used b cs))
        × (in_use b (run t cs).kv_cache_bank_usage
            ≡ (in_use b t.kv_cache_bank_usage || kv_used b cs))
  unfolding run
  run_used t [] e = ground arith
  run_used t (c ∷ cs) e =
      let one = step_used t c e in
      let rest = run_used (step t c) cs one.0 in
      (
        rest.0,
        rest.1
            ∙ ap (λ v. v || weight_used b cs) one.1
            ∙ ||_regroup (in_use b t.weight_bank_usage) _ _ _ (weight_used_cons c cs),
        rest.2
            ∙ ap (λ v. v || kv_used b cs) one.2
            ∙ ||_regroup (in_use b t.kv_cache_bank_usage) _ _ _ (kv_used_cons c cs),
      )

module _ (n b : ℕ) (t : Tracker) (e : t.num_banks ≡ pos n) (h : b < n) where
  bank_in_range : bank_in t.num_banks (pos b) ≡ some b
  bank_in_range = ground arith

  has_potential_conflict_lem :
      has_potential_conflict (pos b) t
      ≡ (in_use b t.weight_bank_usage && in_use b t.kv_cache_bank_usage)
  unfolding has_potential_conflict
  has_potential_conflict_lem = ground (arith, bank_in_range)

  register_kv_lem :
      (addr cycle : ℕ)
      → (register_kv_cache_operation (pos b) addr cycle t).total_conflicts
        ≡ (if in_use b t.weight_bank_usage then t.total_conflicts + 1 else t.total_conflicts)
  unfolding register_kv_cache_operation
  register_kv_lem addr cycle = ground (arith, bank_in_range)

  register_weight_lem :
      (addr cycle : ℕ)
      → (register_weight_operation (pos b) addr cycle t).total_conflicts
        ≡ (if in_use b t.kv_cache_bank_usage then t.total_conflicts + 1 else t.total_conflicts)
  unfolding register_weight_operation
  register_weight_lem addr cycle = ground (arith, bank_in_range)

-- What a tracker over `n` banks remembers of a run.
used_by_run :
    (n b : ℕ) (cs : List Call)
    → b < n
    → let t = run (create (pos n)) cs in
      (t.num_banks ≡ pos n)
      × (in_use b t.weight_bank_usage ≡ weight_used b cs)
      × (in_use b t.kv_cache_bank_usage ≡ kv_used b cs)
unfolding create
used_by_run n b cs h = run_used n b h (create (pos n)) cs refl

-- After any calls on a new tracker over `n` banks, a bank below `n` has a potential conflict exactly
-- when it was the bank of some weight operation and of some KV cache operation.
pub has_potential_conflict-run :
    (n b : ℕ) (cs : List Call)
    → b < n
    → has_potential_conflict (pos b) (run (create (pos n)) cs) ≡ (weight_used b cs && kv_used b cs)
has_potential_conflict-run n b cs h =
    let r = used_by_run n b cs h in
    has_potential_conflict_lem n b (run (create (pos n)) cs) r.0 h ∙ rw (r.1, r.2)

-- The next operation on a bank below `n` is counted as a conflict exactly when some operation of the
-- other kind was ever on that bank: neither the completion of those operations nor a reset of the
-- statistics changes that.
pub register-run :
    (n b addr cycle : ℕ) (cs : List Call)
    → b < n
    → let t = run (create (pos n)) cs in
      ((register_kv_cache_operation (pos b) addr cycle t).total_conflicts
        ≡ (if weight_used b cs then t.total_conflicts + 1 else t.total_conflicts))
      × ((register_weight_operation (pos b) addr cycle t).total_conflicts
          ≡ (if kv_used b cs then t.total_conflicts + 1 else t.total_conflicts))
register-run n b addr cycle cs h =
    let r = used_by_run n b cs h in
    let t = run (create (pos n)) cs in
    (
      register_kv_lem n b t r.0 h addr cycle
          ∙ ap (λ v. if v then t.total_conflicts + 1 else t.total_conflicts) r.1,
      register_weight_lem n b t r.0 h addr cycle
          ∙ ap (λ v. if v then t.total_conflicts + 1 else t.total_conflicts) r.2,
    )
