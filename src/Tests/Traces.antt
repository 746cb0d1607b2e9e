-- ===== src/Tests/Traces.antt =====
-- The trace generator and the front end on a device of two channels, two bank groups and two banks
-- (simulator/src/frontend/impl/memory_trace).
use kvc_pim.Base.{
  ℕ, get_elem?, get_or, length, suc, ◌≤◌, ◌<◌, ◌≡◌, refl, some, List, [], ◌∷◌, arith, pos, zero,
  ◌+◌, Bool, false, not, ◌++◌,
}
use kvc_pim.Dram.{Dram, bank_addr_vec}
use kvc_pim.Dram.Decompose.{capacity, position, bank_addr_vec_lem}
use kvc_pim.Policy.Naive as Naive
use kvc_pim.Policy.Naive.{Naive}
use kvc_pim.Policy.Naive.Placement as NaivePlacement
use kvc_pim.KvTrace.{
  Trace, Generator, create, bank_traces, rows_for, kv_data_size, generate_inference_step, write,
  compute, kernel,
}
use kvc_pim.KvTrace.Rows.{IsDevice, IsRow, bank_traces_lem}
use kvc_pim.KvTrace.Steps.{Ready, StepTraces, generate_inference_step-Ready}
use kvc_pim.Frontend.{token_loop}
use kvc_pim.Frontend.Loader.{
  Keyword, IsNumbered, init_trace, init_trace-IsNumbered, key_gemm, kernel_ids, key_end, key_w,
  key_other, empty_loader,
}
use kvc_pim.Frontend.Weights.{build_weight_map}
use kvc_pim.Frontend.Weights.Detected.{any_write_to, has_weights-build_weight_map}
use kvc_pim.Frontend.Expansion.{IsSession, token_loop-IsSession}
use kvc_pim.Frontend.Delivery.{Delivered, ticks, ticks-Delivered}
use kvc_pim.Policy.Weights.{has_weights}
use kvc_pim.Frontend.Whole.{kernel_ops}

abbrev device : Dram
device = record {
  count = 2 ∷ 2 ∷ 2 ∷ 8 ∷ 16 ∷ [];
  channel_level = 0;
  bankgroup_level = some 1;
  bank_level = 2;
  row_level = 3;
  column_level = 4;
}

sizes : (j : ℕ) → j ≤ 2 → 0 < get_or (2 ∷ 2 ∷ 2 ∷ 8 ∷ 16 ∷ []) j 0
sizes zero h = omega arith
sizes (suc zero) h = omega arith
sizes (suc (suc zero)) h = omega arith
sizes (suc (suc (suc j))) h = absurd (omega arith)

device-IsDevice : IsDevice device
device-IsDevice = record {
  sizes = sizes;
  row_below = omega arith;
  column_below = omega arith;
  apart = omega arith;
  row_in = omega arith;
  column_in = omega arith;
}

eight_banks : 8 ≤ capacity (2 ∷ 2 ∷ 2 ∷ 8 ∷ 16 ∷ []) 3
unfolding capacity
eight_banks = omega arith

five_in : 5 < capacity (2 ∷ 2 ∷ 2 ∷ 8 ∷ 16 ∷ []) 3
unfolding capacity
five_in = omega arith

decompose_example :
    (length (bank_addr_vec device 5) ≡ length device.count)
    × (position device.count (bank_addr_vec device 5) (device.bank_level + 1) ≡ 5)
    × ((j : ℕ)
        → j ≤ device.bank_level
        → get_or (bank_addr_vec device 5) j 0 < get_or device.count j 0)
    × ((j : ℕ) → device.bank_level < j → get_or (bank_addr_vec device 5) j 0 ≡ 0)
decompose_example = bank_addr_vec_lem device 5 (omega arith) sizes five_in

rows_example :
    (length (bank_traces write (some device) (pos 8) (pos 5) 20000) ≡ rows_for 20000)
    × ((i : ℕ)
        → i < rows_for 20000
        → (addr : List ℕ) × (get_elem? (bank_traces write (some device) (pos 8) (pos 5) 20000) i
            ≡ some (write, addr))
          × IsRow device 5 i addr)
rows_example = bank_traces_lem write device 8 5 20000 device-IsDevice (omega arith) eight_banks

abbrev generator : Generator Naive
generator = create (Naive.init (pos 8) []) (some device) (pos 8)

generator-Ready :
    Ready NaivePlacement.policy 8
      (NaivePlacement.contract 8)
      device
      device-IsDevice
      eight_banks
      generator
      0
unfolding create NaivePlacement.contract
generator-Ready = record {
  valid = NaivePlacement.init-IsValid 8 [] (omega arith);
  device = refl;
  bank_count = refl;
  placed = λ t h. absurd (omega arith);
}

-- The generator after the step for token 0.
abbrev next_generator : Generator Naive
next_generator = (generate_inference_step NaivePlacement.policy 0 generator).1

next-Ready :
    Ready NaivePlacement.policy 8
      (NaivePlacement.contract 8)
      device
      device-IsDevice
      eight_banks
      next_generator
      1
next-Ready =
    (generate_inference_step-Ready NaivePlacement.policy 8 (NaivePlacement.contract 8) device
      device-IsDevice eight_banks generator 0 generator-Ready).0

step_example :
    Ready NaivePlacement.policy 8
      (NaivePlacement.contract 8)
      device
      device-IsDevice
      eight_banks
      (generate_inference_step NaivePlacement.policy 1 next_generator).1
      (1 + 1)
    × StepTraces NaivePlacement.policy 8
        (NaivePlacement.contract 8)
        device
        device-IsDevice
        eight_banks
        next_generator
        (generate_inference_step NaivePlacement.policy 1 next_generator).1
        1
        (generate_inference_step NaivePlacement.policy 1 next_generator).0
    × ((generate_inference_step NaivePlacement.policy 1 next_generator).1.block_size
        ≡ next_generator.block_size)
    × (kv_data_size (generate_inference_step NaivePlacement.policy 1 next_generator).1
        ≡ kv_data_size next_generator)
step_example =
    generate_inference_step-Ready NaivePlacement.policy 8 (NaivePlacement.contract 8) device
      device-IsDevice eight_banks next_generator 1 next-Ready

abbrev some_ops : List Trace
some_ops = (write, 0 ∷ 0 ∷ 0 ∷ 3 ∷ 0 ∷ []) ∷ (compute, 0 ∷ 0 ∷ 0 ∷ 1 ∷ 0 ∷ []) ∷ []

loop_example :
    IsSession NaivePlacement.policy 8
      (NaivePlacement.contract 8)
      device
      device-IsDevice
      eight_banks
      some_ops
      2
      0
      3
      generator
      (token_loop NaivePlacement.policy 3 0 some_ops 2 generator).0
loop_example =
    token_loop-IsSession NaivePlacement.policy 8 (NaivePlacement.contract 8) device device-IsDevice
      eight_banks 3 0 some_ops 2 generator generator-Ready

weights_example : has_weights (pos 3) (build_weight_map 8 some_ops) ≡ any_write_to 8 3 some_ops
weights_example = has_weights-build_weight_map 8 3 some_ops

-- A line of tokens that are numbers: 0 opens a matrix multiplication, 1 ends it, 2 is a write.
abbrev keyword : ℕ → Keyword
keyword zero = key_gemm
keyword (suc zero) = key_end
keyword (suc (suc zero)) = key_w
keyword (suc (suc (suc n))) = key_other

abbrev lines : List (List ℕ)
lines = (0 ∷ []) ∷ (7 ∷ 8 ∷ []) ∷ (1 ∷ []) ∷ (2 ∷ 9 ∷ []) ∷ (0 ∷ []) ∷ (1 ∷ []) ∷ []

IsNumbered-example : IsNumbered (init_trace keyword (λ n. n ∷ []) lines (empty_loader {Str = ℕ}))
unfolding kernel_ids
IsNumbered-example = init_trace-IsNumbered keyword (λ n. n ∷ []) lines empty_loader refl

-- A code generator that adds one operation for a kernel.
abbrev codegen_kernel : List ℕ → List Trace → List Trace
codegen_kernel lines ops = ops ++ ((compute, lines) ∷ [])

abbrev kernel_trace : List Trace
kernel_trace = (kernel, 0 ∷ []) ∷ []

abbrev whole_ops : List Trace
whole_ops = kernel_ops codegen_kernel ((4 ∷ []) ∷ []) NaivePlacement.policy kernel_trace

-- A memory that refuses every other operation.
abbrev every_other : Trace → Bool → Bool × Bool
every_other t ready = (ready, not ready)

Delivered-example :
    Delivered
      (record { trace = some_ops; curr_trace_idx = 0 })
      (ticks every_other 3 (record { trace = some_ops; curr_trace_idx = 0 }) false).0
      (ticks every_other 3 (record { trace = some_ops; curr_trace_idx = 0 }) false).1
Delivered-example =
    ticks-Delivered every_other 3 (record { trace = some_ops; curr_trace_idx = 0 }) false
