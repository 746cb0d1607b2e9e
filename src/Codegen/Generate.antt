-- ===== src/Codegen/Generate.antt =====
-- The generation loops of the FIMDRAM code generator (simulator/src/pim_codegen/impl/fimdram.cpp): the
-- time steps that are simulated, the loop over the spatial elements with the accesses that it collects
-- for each bank, and the allocation methods `no_duplicate` and `bank_duplicate`.
pub mod Timesteps
pub mod NoDuplicate
pub mod BankDuplicate
pub mod RowDuplicate
pub mod Fresh
pub mod Dispatch
pub mod Runs
pub mod Appends
use kvc_pim.Base.{
  ℕ, get_or, if◌then◌else◌, ltb, ◌==◌, zero, suc, ◌+◌, ◌-◌, ◌/◌, Bool, not, ◌&&◌, ◌||◌, List, [],
  ◌∷◌, ◌++◌, ◌*◌, map,
}
use kvc_pim.DataSpace.{DataSpaceIdx, get_hash}
use kvc_pim.Dram.{Dram}
use kvc_pim.KvTrace.{Trace}
use kvc_pim.Layout.{SpatialHierarchy}
use kvc_pim.Layout.Infer.{Plan, PimTensors}
use kvc_pim.Layout.Numbering.{Table, infer_layout, no_idx}
use kvc_pim.Codegen.{codegen_bank, add_bank_tag}
use kvc_pim.Codegen.Scheme.{get_addr_scheme8}

-- What the loops read of the layout.
pub record Kernel : Type 0 where
  pub plan : Plan
  pub hierarchy : SpatialHierarchy
  pub bounds : List DataSpaceIdx
  pub output_tensor : ℕ
  pub weight_tensor : ℕ
  pub first_bank : ℕ
  pub first_row : ℕ

-- One entry of `row_col_accesses`: a row with its bank's tag, a column, and the number kept for them.
pub record Access : Type 0 where
  pub row : ℕ
  pub col : ℕ
  pub number : ℕ

-- What they read of the device and of the configuration; `column_bits`
-- is `int(log2(get_level_size("column")))`, and `walk` is the order in which the hash map of the accesses
-- is walked.
pub record Machine : Type 0 where
  pub dram : Dram
  pub bank_buffer : Bool
  pub n_values_per_dq : ℕ
  pub sim_timesteps : ℕ
  pub column_bits : ℕ
  pub walk : List Access → List Access

unfoldable pub tid_step : ℕ → ℕ → ℕ
tid_step sim_timesteps temporal_steps =
    if ltb 0 sim_timesteps then (temporal_steps - 1) / sim_timesteps + 1 else 1

-- The values of `tid` in the loop, with the fuel `rounds`.
unfoldable pub timesteps_from : ℕ → ℕ → ℕ → ℕ → List ℕ
timesteps_from zero tid step temporal_steps = []
timesteps_from (suc rounds) tid step temporal_steps =
    let rest = timesteps_from rounds (tid + step) step temporal_steps in
    if ltb tid temporal_steps then tid ∷ rest else []

unfoldable pub timesteps : ℕ → ℕ → List ℕ
unfolding timesteps_from tid_step
timesteps sim_timesteps temporal_steps =
    timesteps_from temporal_steps 0 (tid_step sim_timesteps temporal_steps) temporal_steps

-- `row_col_accesses[row][col]` is set to `next` of its old number, which is 0 for a new entry.
unfoldable pub put_access : (ℕ → ℕ) → ℕ → ℕ → List Access → List Access
put_access next row col [] = record { row = row; col = col; number = next 0 } ∷ []
put_access next row col (a ∷ accesses) =
    let rest = put_access next row col accesses in
    if a.row == row && a.col == col
    then record a { number = next a.number } ∷ accesses
    else a ∷ rest

-- The variables of the loop over the elements; `place` is the state of the allocation method.
pub record Collect (S : Type 0) : Type 0 where
  pub instructions : List Trace
  pub prev_bank_id : ℕ
  pub accesses : List Access
  pub place : S

-- What the loop over the elements of a tensor is run with: the calls that the allocation methods differ
-- in are `emit` for a bank and its accesses, `next` for the number of an access and `allocate` for the
-- tagged row and the column of an element. `single_bank` is set where the method leaves the loop after
-- the first bank.
pub record Elements (S : Type 0) : Type 0 where
  pub single_bank : Bool
  pub cols_per_bank : ℕ
  pub first_bank : ℕ
  pub n_spatial_elems : ℕ
  pub emit : ℕ → S → List Access → List Trace
  pub next : ℕ → ℕ
  pub allocate : ℕ → S → (ℕ × ℕ) × S

module _ {S : Type 0} (e : Elements S) where
  abbrev pub bank_of : ℕ → ℕ
  bank_of sid = sid / e.cols_per_bank + e.first_bank

  unfoldable pub flush : Collect S → Collect S
  flush c = record c {
    instructions = c.instructions ++ e.emit c.prev_bank_id c.place c.accesses;
    accesses = [];
  }

  -- The body of the loop for one element: at a new bank and at the last element the accesses so far are
  -- emitted, else the element's access is put in.
  unfoldable pub collect : ℕ → Collect S → Collect S
  unfolding put_access flush
  collect sid c =
      let allocated = e.allocate sid c.place in
      let flushed = flush (record c { place = allocated.1 }) in
      if not (bank_of sid == c.prev_bank_id) || sid == e.n_spatial_elems - 1
      then record flushed { prev_bank_id = bank_of sid }
      else record c {
        prev_bank_id = bank_of sid;
        accesses = put_access e.next allocated.0.0 allocated.0.1 c.accesses;
        place = allocated.1;
      }

  unfoldable pub collect_all : ℕ → ℕ → Collect S → Collect S
  unfolding collect flush
  collect_all zero sid c = c
  collect_all (suc rounds) sid c =
      let rest = collect_all rounds (sid + 1) (collect sid c) in
      if e.single_bank && ltb 0 (sid / e.cols_per_bank) then flush c else rest

-- The hash of a tensor's data space at an element.
unfoldable pub hash_at : Kernel → PimTensors → ℕ → ℕ → ℕ
unfolding get_hash
hash_at k tensors i sid =
    get_hash (get_or (get_or (get_or tensors i []) sid []) 0 no_idx) (get_or k.bounds i no_idx)

-- `emit` with `codegen_bank`.
unfoldable pub emit_bank {ℓ} :
    {S : Type ℓ} → Machine → Kernel → ℕ → ℕ → S → List Access → List Trace
unfolding codegen_bank
emit_bank m k i bank place accesses =
    codegen_bank m.dram
      (record {
        global_bank_id = bank;
        output_tensor = i == k.output_tensor;
        bank_buffer = m.bank_buffer;
        n_values_per_dq = m.n_values_per_dq;
      })
      (map (λ a. (a.row, a.col)) (m.walk accesses))

-- `n_spatial_elems` and `cols_per_bank` of the loops.
abbrev pub elems_of : Kernel → ℕ
elems_of k = k.hierarchy.spatial_banks * k.hierarchy.spatial_cols

abbrev pub cols_of : Kernel → ℕ
cols_of k = (elems_of k - 1) / k.hierarchy.spatial_banks + 1

-- The loop over the elements of one tensor, with its variables before it.
unfoldable pub collect_tensor : {S : Type 0} → Elements S → List Trace → S → Collect S
unfolding collect_all
collect_tensor e instructions place =
    collect_all e e.n_spatial_elems 0
      (record { instructions = instructions; prev_bank_id = 0; accesses = []; place = place })
