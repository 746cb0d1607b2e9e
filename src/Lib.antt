-- ===== src/Lib.antt =====
-- Verification of the KV cache placement simulator: the policies that choose a DRAM bank for the KV
-- cache of each token, the generator that turns tokens into memory operations, the front end that
-- mixes them with the kernels' operations, the layout and the code generator that make those, and the
-- memory side that takes the operations.
--
-- How the parts interact. `PimTraceKVAware` (simulator/src/frontend/impl/memory_trace/
-- pim_trace_kv_aware.cpp) loads a trace, lets the code generator expand its kernels, reads the banks
-- with weights off the expanded operations and gives them to the policy; then, for each token, it asks
-- `KVCacheTraceGenerator` for one inference step, which asks the policy for a bank, and appends a slice
-- of the kernels. Each clock tick sends one operation to `PimDRAMSystem`, which passes it to the
-- controller of its channel; the controller queues it, and schedules and issues commands.
--
-- The files:
--   Base             shared types, integers, vectors and maps
--   Policy           simulator/src/pim_codegen/kv_cache_policy.h: `IKVCachePolicy` as a record with its
--                    contract (Interface), the four policies as records with one function for each
--                    method (Naive, Partition, Contention, Locality), the weight mapping (Weights)
--   Tracker          simulator/src/memory_system/bank_conflict_tracker.h
--   Dram             the levels of a device (simulator/src/dram/dram.h) and the decomposition of a bank
--                    number into them
--   KvTrace          simulator/src/frontend/impl/memory_trace/kv_cache_trace_generator.h
--   Frontend         pim_trace_kv_aware.cpp: the lines (Loader), the weight map (Weights), the loops,
--                    the tick and the end of the trace (Frontend itself), what the loop over the tokens
--                    makes (Expansion), and `expand_trace` as a whole (Whole)
--   Memory           simulator/src/base/request.h (Request), the scheduler and the controller of
--                    simulator/src/dram_controller/impl (Scheduler, Controller), the refresh manager
--                    (Refresh; Ranks over the controller), and `send` and `finished` of
--                    simulator/src/memory_system/impl/pim_DRAM_system.cpp (System)
--   DataSpace        simulator/src/pim_codegen/data_space.h, and the tensors of layout.h (Kernels)
--   Layout           simulator/src/pim_codegen/layout.h: the split of the loop nest and the indices of a time
--                    step (Layout itself, Hierarchy, Timestep), the search through the nest with the
--                    variables that it restores (Infer), the tables of each bank (Numbering)
--   WeightLoader     simulator/src/pim_codegen/static_weight_loader.h
--   Codegen          simulator/src/pim_codegen/impl/fimdram.cpp: the tables and `codegen_bank` (Codegen
--                    itself), the address scheme (Scheme), the loops over time steps and elements and the
--                    four allocation methods (Generate, with `new` in Fresh); Simdram is
--                    simulator/src/pim_codegen/impl/simdram.cpp, Description the lines of a kernel
--                    (simulator/src/pim_codegen/codegen.h), and Whole the layout that is constructed from
--                    them, with `codegen_kernel`
--   Tests            the theorems at concrete inputs
--
-- Conventions. A method is a function from the object's state to the result and the new state; what
-- throws is `none`. An `int` that may be negative is an integer ℤ, other numbers are naturals without
-- a bound: `get_hash` is that of the source only where its `int` does not overflow. The entries of an
-- address are naturals in the traces, where the generators make no negative ones, and integers in
-- the requests of the memory side, where those of the refresh manager have -1. A `std::map` that is
-- only looked up is a function, one that is walked is a list. The `static` variable of the
-- contention-aware policy is a field of its state. The scores of the smart policy are the exact
-- integers that its floating-point sums stand for. Loops are structural recursion on the rounds left,
-- which is the loop's own bound; the loop over the time steps, which advances by more than one, has
-- the number of time steps as its fuel, since every step is at least one. The search through the loop
-- nest of a layout threads all its variables, as the source does.
--
-- Parameters, which the theorems do not depend on or state conditions on: the code generator's
-- `codegen_kernel` (a function, so a generator that does not throw), the strings of a trace file (and
-- what a read past the end of its tokens gives), the device with its table of operations, the watermark
-- tests of the controller, the requests that a refresh manager sends in a tick of the controller, the
-- controller that a refresh manager sends to, and the order in which a hash map is walked.
--
-- Not modelled: logging and configuration, the controller's plugins, the device models, the
-- assertions of the code generators, the compiler passes that build integer programs for a solver,
-- file access.
pub mod Base
pub mod Dram
pub mod Policy
pub mod KvTrace
pub mod Tracker
pub mod DataSpace
pub mod Layout
pub mod Frontend
pub mod Memory
pub mod Tests
pub mod Codegen
pub mod WeightLoader
