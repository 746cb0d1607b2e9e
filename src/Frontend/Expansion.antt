-- ===== src/Frontend/Expansion.antt =====
-- The loop over the tokens (`expand_trace` of
-- simulator/src/frontend/impl/memory_trace/pim_trace_kv_aware.cpp): what it makes of each token.
use kvc_pim.Base.{
  ℕ, get_elem?, get_or, is_empty, if◌then◌else◌, length, zero, suc, ◌+◌, ◌*◌, ◌%◌, ◌≤◌, ◌<◌, ◌≡◌,
  refl, sym, ap, some, List, [], ◌∷◌, arith, ◌∙◌, ◌++◌,
}
use native.Mathlib.Nat.{mod-add-mod, mod-lt}
use kvc_pim.Dram.{Dram}
use kvc_pim.Dram.Decompose.{capacity}
use kvc_pim.Policy.Interface.{IkvCachePolicy, Contract}
use kvc_pim.KvTrace.{Generator, Trace, kernel, kv_data_size, generate_inference_step}
use kvc_pim.KvTrace.Rows.{IsDevice}
use kvc_pim.KvTrace.Steps.{Ready, StepTraces, generate_inference_step-Ready}
use kvc_pim.Frontend.{kernel_slice, token_slice, token_loop}

length-kernel_slice : (ops : List Trace) (start n : ℕ) → length (kernel_slice ops start n) ≡ n
unfolding kernel_slice
length-kernel_slice ops start zero = refl
length-kernel_slice ops start (suc n) = ap suc (length-kernel_slice ops (start + 1) n)

get_elem?-get_or :
    (xs : List Trace) (i : ℕ) (d : Trace) → i < length xs → get_elem? xs i ≡ some (get_or xs i d)
get_elem?-get_or [] i d h = absurd (omega arith)
get_elem?-get_or (x ∷ xs) zero d h = refl
get_elem?-get_or (x ∷ xs) (suc i) d h = get_elem?-get_or xs i d (omega arith)

get_elem?-kernel_slice :
    (ops : List Trace) (start n i : ℕ)
    → i < n
    → 0 < length ops
    → get_elem? (kernel_slice ops start n) i ≡ get_elem? ops ((start + i) % length ops)
unfolding kernel_slice
get_elem?-kernel_slice ops start zero i h l = absurd (omega arith)
get_elem?-kernel_slice ops start (suc n) zero h l =
    sym (get_elem?-get_or ops (start % length ops) (kernel, []) (mod-lt start l))
    ∙ ap (λ j. get_elem? ops (j % length ops)) (omega arith)
get_elem?-kernel_slice ops start (suc n) (suc i) h l =
    get_elem?-kernel_slice ops (start + 1) n i (omega arith) l
    ∙ ap (λ j. get_elem? ops (j % length ops)) (omega arith)

-- The slice of a token: none without kernel operations, else as many of them as the slice is long,
-- from the place where the slices of the earlier tokens end, around the end of the kernels.
pub record IsSlice (ops : List Trace) (slice token : ℕ) (traces : List Trace) : Type 0 where
  pub size : length traces ≡ (if is_empty ops then 0 else slice)
  pub entries :
      (i : ℕ)
      → i < length traces
      → get_elem? traces i ≡ get_elem? ops ((token * slice + i) % length ops)

token_slice-IsSlice :
    (ops : List Trace) (slice token : ℕ) → IsSlice ops slice token (token_slice ops slice token)
unfolding token_slice
token_slice-IsSlice [] slice token = record { size = refl; entries = λ i h. absurd (omega arith) }
token_slice-IsSlice (op ∷ ops) slice token =
    let start = (token * slice) % length (op ∷ ops) in
    let n = length-kernel_slice (op ∷ ops) start slice in
    record {
      size = n;
      entries = λ i h.
          get_elem?-kernel_slice (op ∷ ops) start slice i (omega (arith, n, h)) (omega arith)
          ∙ ap (get_elem? (op ∷ ops)) (mod-add-mod (token * slice) (length (op ∷ ops)) i);
    }

module _ (policy : IkvCachePolicy) (banks : ℕ) (c : Contract policy banks) (dram : Dram)
    (d : IsDevice dram) (le : banks ≤ capacity dram.count (dram.bank_level + 1)) where
  -- The trace of a number of tokens from `token` on, which starts with the generator `g`: for each
  -- token the traces of its step, and then its slice of the kernels.
  pub data IsSession (ops : List Trace) (slice : ℕ)
      : ℕ → ℕ → Generator policy.State → List Trace → Type 0 where
    finished : (token : ℕ) (g : Generator policy.State) → IsSession ops slice token 0 g []
    next :
        (token rounds : ℕ) (g after : Generator policy.State) (step sliced rest : List Trace)
        → StepTraces policy banks c dram d le g after token step
        → after.block_size ≡ g.block_size
        → kv_data_size after ≡ kv_data_size g
        → IsSlice ops slice token sliced
        → IsSession ops slice (token + 1) rounds after rest
        → IsSession ops slice token (suc rounds) g (step ++ (sliced ++ rest))

  -- Under a placement policy that keeps its contract, the loop over the tokens makes for each token, in
  -- their order: the reads of all earlier tokens, its own writes, each row by row in the bank where the
  -- policy has the token, and its slice of the kernel operations, where the last token's slice ended.
  pub token_loop-IsSession :
      (rounds token : ℕ) (ops : List Trace) (slice : ℕ) (g : Generator policy.State)
      → Ready policy banks c dram d le g token
      → IsSession ops slice token rounds g (token_loop policy rounds token ops slice g).0
  unfolding token_loop
  token_loop-IsSession zero token ops slice g r = finished token g
  token_loop-IsSession (suc rounds) token ops slice g r =
      let step = generate_inference_step policy token g in
      let s = generate_inference_step-Ready policy banks c dram d le g token r in
      next token rounds g step.1 step.0 (token_slice ops slice token) _ s.1 s.2 s.3
        (token_slice-IsSlice ops slice token)
        (token_loop-IsSession rounds (token + 1) ops slice step.1 s.0)
