-- ===== src/Frontend.antt =====
-- `PimTraceKVAware` of simulator/src/frontend/impl/memory_trace/pim_trace_kv_aware.cpp: the expansion
-- of the kernels, the loop over the tokens, and the clock tick. Logging is left out.
pub mod Loader
pub mod Weights
pub mod Expansion
pub mod Delivery
pub mod Whole
use kvc_pim.Base.{
  ℕ, get_elem?, get_or, if◌then◌else◌, is_empty, leb, length, ltb, ◌&&◌, zero, suc, ◌+◌, ◌-◌, ◌*◌,
  ◌%◌, Bool, true, false, Option, none, some, List, [], ◌∷◌, ◌++◌,
}
use kvc_pim.Policy.Interface.{IkvCachePolicy}
use kvc_pim.KvTrace.{Op, Trace, Generator, generate_inference_step, kernel}

-- `SAFETY_LIMIT`
abbrev pub safety_limit : ℕ
safety_limit = 5000000

unfoldable pub is_kernel : Op → Bool
is_kernel Op.kernel = true
is_kernel _ = false

-- `expanded_kernel_ops` and `total_instructions`.
pub record Expanded : Type 0 where
  pub ops : List Trace
  pub total_instructions : ℕ

-- The kernels are lists of lines, whatever a line is; `codegen_kernel` is the code generator's, which
-- gets the operations so far and returns them with its own.
module _ {Line : Type 0} (codegen_kernel : List Line → List Trace → List Trace)
    (kernels : List (List Line)) where
  unfoldable pub expand_kernel : List ℕ → Expanded → Expanded
  expand_kernel addr_vec e =
      let ops = codegen_kernel (get_or kernels (get_or addr_vec 0 0) []) e.ops in
      record { ops = ops; total_instructions = e.total_instructions + (length ops - length e.ops) }

  -- The loop over the loaded trace, which is left when the limit is passed.
  unfoldable pub expand_kernels : List Trace → Expanded → Expanded
  unfolding expand_kernel is_kernel
  expand_kernels [] e = e
  expand_kernels ((op, addr_vec) ∷ trace) e =
      let grown = expand_kernel addr_vec e in
      let rest = expand_kernels trace grown in
      let others = expand_kernels trace e in
      if is_kernel op
      then (if ltb safety_limit grown.total_instructions then grown else rest)
      else others

-- The operations `start`, `start + 1`, ... of the kernels, from the first one again after the last.
unfoldable pub kernel_slice : List Trace → ℕ → ℕ → List Trace
kernel_slice ops start zero = []
kernel_slice ops start (suc n) =
    get_or ops (start % length ops) (kernel, []) ∷ kernel_slice ops (start + 1) n

-- The slice of one token.
unfoldable pub token_slice : List Trace → ℕ → ℕ → List Trace
unfolding kernel_slice
token_slice ops slice token =
    if is_empty ops then [] else kernel_slice ops ((token * slice) % length ops) slice

-- The slice's size: at most the number of operations.
abbrev pub slice_size : ℕ → List Trace → ℕ
slice_size wanted ops = if ltb (length ops) wanted then length ops else wanted

-- The loop over the tokens from `token` on, `rounds` of them.
unfoldable pub token_loop :
    (policy : IkvCachePolicy)
    → ℕ
    → ℕ
    → List Trace
    → ℕ
    → Generator policy.State
    → List Trace × Generator policy.State
unfolding token_slice
token_loop policy zero token ops slice g = ([], g)
token_loop policy (suc rounds) token ops slice g =
    let step = generate_inference_step policy token g in
    let rest = token_loop policy rounds (token + 1) ops slice step.1 in
    (step.0 ++ (token_slice ops slice token ++ rest.0), rest.1)

-- `m_trace` and `m_curr_trace_idx`; `m_trace_length` is the length of the trace.
pub record PimTraceKvAware : Type 0 where
  pub trace : List Trace
  pub curr_trace_idx : ℕ

-- A clock tick over a memory system that takes operations: the operation that was accepted, if any,
-- stands in the result.
module _ {Memory : Type 0} (send : Trace → Memory → Bool × Memory) where
  unfoldable pub tick : PimTraceKvAware → Memory → Option Trace × PimTraceKvAware × Memory
  tick f memory = elim (get_elem? f.trace f.curr_trace_idx) [
    | none ↦ (none, f, memory)
    | some t ↦
        let sent = send t memory in
        if sent.0
        then (some t, record f { curr_trace_idx = f.curr_trace_idx + 1 }, sent.1)
        else (none, f, sent.1)
  ]

-- `is_finished`, over a memory system's `finished`.
unfoldable pub is_finished : {Memory : Type 0} → (Memory → Bool) → PimTraceKvAware → Memory → Bool
is_finished finished f memory = leb (length f.trace) f.curr_trace_idx && finished memory
