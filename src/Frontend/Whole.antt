-- ===== src/Frontend/Whole.antt =====
-- `expand_trace` as a whole
-- (simulator/src/frontend/impl/memory_trace/pim_trace_kv_aware.cpp): the kernels are expanded, the
-- policy gets the weights that they write, and the loop over the tokens makes the trace.
use kvc_pim.Base.{ℕ, if◌then◌else◌, Bool, List, []}
use kvc_pim.Dram.{Dram}
use kvc_pim.Policy.Interface.{IkvCachePolicy}
use kvc_pim.KvTrace.{Generator, Trace}
use kvc_pim.Frontend.{Expanded, expand_kernels, slice_size, token_loop}
use kvc_pim.Frontend.Weights.{build_weight_map}

abbrev pub nothing_expanded : Expanded
nothing_expanded = record { ops = []; total_instructions = 0 }

module _ {Line : Type 0} (codegen_kernel : List Line → List Trace → List Trace)
    (kernels : List (List Line)) (policy : IkvCachePolicy) where
  abbrev pub kernel_ops : List Trace → List Trace
  kernel_ops trace = (expand_kernels codegen_kernel kernels trace nothing_expanded).ops

  -- The policy's new mapping, on the generator that shares the policy.
  unfoldable pub give_weights : ℕ → List Trace → Generator policy.State → Generator policy.State
  give_weights num_banks ops g = record g {
    policy_state = policy.set_static_weight_mapping (build_weight_map num_banks ops) g.policy_state;
  }

  -- `enabled` is `m_enable_kv_cache`; `wanted` is the configured size of a slice.
  unfoldable pub expand_trace : Bool → ℕ → ℕ → ℕ → List Trace → Generator policy.State → List Trace
  unfolding give_weights
  expand_trace enabled num_tokens wanted num_banks trace g =
      let ops = kernel_ops trace in
      let made =
        token_loop policy num_tokens 0 ops (slice_size wanted ops) (give_weights num_banks ops g) in
      if enabled then made.0 else ops
