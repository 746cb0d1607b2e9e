-- ===== src/Frontend/Delivery.antt =====
-- The operations that the front end's clock ticks hand to the memory system
-- (simulator/src/frontend/impl/memory_trace/pim_trace_kv_aware.cpp).
use kvc_pim.Base.{
  ℕ, get_elem?, zero, suc, ◌+◌, ◌≡◌, refl, Bool, none, some, List, [], ◌∷◌, ◌++◌, Bool-cases,
  Option-cases, ap, ◌⊎◌, inl, inr, arith, append-nil, sym, subst, ◌∙◌, Option, append_assoc,
}
use kvc_pim.KvTrace.{Trace}
use kvc_pim.Frontend.{PimTraceKvAware, tick}

-- The first entries of a list.
abbrev pub take {ℓ} : {A : Type ℓ} → ℕ → List A → List A
take zero xs = []
take (suc n) [] = []
take (suc n) (x ∷ xs) = x ∷ take n xs

take_next :
    {A : Type 0} (n : ℕ) (xs : List A) (x : A)
    → get_elem? xs n ≡ some x
    → take (suc n) xs ≡ take n xs ++ (x ∷ [])
take_next n [] x h = ground arith
take_next zero (y ∷ xs) x h = ground arith
take_next (suc n) (y ∷ xs) x h = ap (λ l. y ∷ l) (take_next n xs x h)

-- The operation of a tick before those of the later ones.
abbrev accepted : Option Trace → List Trace → List Trace
accepted none ops = ops
accepted (some op) ops = op ∷ ops

-- The trace stays, and `ops` are its operations from the place of `f` to that of `after`.
pub record Delivered (f : PimTraceKvAware) (ops : List Trace) (after : PimTraceKvAware)
    : Type 0 where
  pub kept : after.trace ≡ f.trace
  pub in_order : take f.curr_trace_idx f.trace ++ ops ≡ take after.curr_trace_idx f.trace

module _ {Memory : Type 0} (send : Trace → Memory → Bool × Memory) where
  -- `rounds` ticks: the accepted operations, the front end and the memory system.
  unfoldable pub ticks : ℕ → PimTraceKvAware → Memory → List Trace × PimTraceKvAware × Memory
  unfolding tick
  ticks zero f memory = ([], f, memory)
  ticks (suc rounds) f memory =
      let t = tick send f memory in
      let rest = ticks rounds t.1 t.2 in (accepted t.0 rest.0, rest.1, rest.2)

  After : PimTraceKvAware → ℕ → Option Trace × PimTraceKvAware × Memory → Type 0
  After f rounds t = let rest = ticks rounds t.1 t.2 in Delivered f (accepted t.0 rest.0) rest.1

  -- A tick accepts the operation where the front end stands and goes on, or stays.
  pub tick-cases :
      (f : PimTraceKvAware) (memory : Memory)
      → ((m : Memory) × (tick send f memory ≡ (none, f, m)))
        ⊎ ((op : Trace) × (m : Memory) × (tick send f memory
              ≡ (some op, record f { curr_trace_idx = f.curr_trace_idx + 1 }, m))
            × (get_elem? f.trace f.curr_trace_idx ≡ some op))
  unfolding tick
  tick-cases f memory = elim (Option-cases (get_elem? f.trace f.curr_trace_idx)) [
    | inl e ↦ inl (memory, rw (e, tick) refl)
    | inr p ↦ elim (Bool-cases (send p.0 memory).0) [
      | inl y ↦ inr (p.0, (send p.0 memory).1, rw (p.1, tick, y) refl, p.1)
      | inr y ↦ inl ((send p.0 memory).1, rw (p.1, tick, y) refl)
    ]
  ]

  -- Whatever the memory system accepts and refuses, the accepted operations are those of the trace,
  -- in its order, from the place where the front end stood to the place where it stands: none is
  -- left out, none is sent twice.
  pub ticks-Delivered :
      (rounds : ℕ) (f : PimTraceKvAware) (memory : Memory)
      → Delivered f (ticks rounds f memory).0 (ticks rounds f memory).1
  unfolding ticks After
  ticks-Delivered zero f memory = record {
    kept = refl;
    in_order = append-nil (take f.curr_trace_idx f.trace);
  }
  ticks-Delivered (suc rounds) f memory = elim (tick-cases f memory) [
    | inl p ↦ subst (After f rounds) (sym p.1) (ticks-Delivered rounds f p.0)
    | inr p ↦
        let next : PimTraceKvAware = record f { curr_trace_idx = f.curr_trace_idx + 1 } in
        let ih = ticks-Delivered rounds next p.1 in
        subst (After f rounds) (sym p.2) (record {
          kept = ih.kept;
          in_order =
              sym
                (append_assoc (take f.curr_trace_idx f.trace) (p.0 ∷ []) (ticks rounds next p.1).0)
              ∙ ap (λ ops. ops ++ (ticks rounds next p.1).0)
                  (sym (take_next f.curr_trace_idx f.trace p.0 p.3))
              ∙ ap (λ n. take n f.trace ++ (ticks rounds next p.1).0) {x = suc f.curr_trace_idx}
                  (omega arith)
              ∙ ih.in_order;
        })
  ]
