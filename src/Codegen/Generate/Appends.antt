-- ===== src/Codegen/Generate/Appends.antt =====
-- The FIMDRAM code generator (simulator/src/pim_codegen/impl/fimdram.cpp) only appends to the
-- instructions that it is given, as the front end relies on.
use kvc_pim.Base.{
  ℕ, length, ltb, ◌==◌, zero, suc, ◌+◌, ◌-◌, ◌/◌, ◌≡◌, refl, sym, ap, ◌∙◌, not, ◌&&◌, ◌||◌, some,
  List, [], ◌∷◌, ◌++◌, append-nil, append_assoc, if-cases, replicate, subst, some_inj, none≢some,
  Option,
}
use Prim.Native.String.{String}
use text.Mathlib.Text.{◌==◌ as str_eq}
use kvc_pim.KvTrace.{Trace}
use kvc_pim.Codegen.Generate.{
  Kernel, Machine, Elements, Collect, flush, collect, collect_all, collect_tensor, bank_of,
  timesteps, elems_of,
}
use kvc_pim.Layout.Infer.{PimTensors}
use kvc_pim.Layout.Numbering.{Table, infer_layout}
use kvc_pim.Codegen.Generate.Dispatch.{codegen}
use kvc_pim.Codegen.Generate.NoDuplicate.{
  no_duplicate_tensors, no_duplicate_steps, no_duplicate_elements, codegen_no_duplicate,
}
use kvc_pim.Codegen.Generate.BankDuplicate.{
  bank_duplicate_tensors, bank_duplicate_steps, codegen_bank_duplicate, Rows,
  bank_duplicate_elements, first_rows,
}
use kvc_pim.Codegen.Generate.RowDuplicate.{
  row_duplicate_tensors, row_duplicate_steps, Columns, codegen_row_duplicate,
  row_duplicate_elements,
}
use kvc_pim.Codegen.Generate.Fresh.{Fresh, fresh_tensors, fresh_steps, fresh_elements, codegen_new}

pub record Extends (before after : List Trace) : Type 0 where
  pub more : List Trace
  pub appended : after ≡ before ++ more

Extends-refl : (xs : List Trace) → Extends xs xs
Extends-refl xs = record { more = []; appended = sym (append-nil xs) }

Extends-trans : {xs ys zs : List Trace} → Extends xs ys → Extends ys zs → Extends xs zs
Extends-trans {xs = xs} e f = record {
  more = e.more ++ f.more;
  appended = f.appended ∙ ap (λ l. l ++ f.more) e.appended ∙ append_assoc xs e.more f.more;
}

module _ {S : Type 0} (e : Elements S) where
  flush-Extends : (c : Collect S) → Extends c.instructions (flush e c).instructions
  unfolding flush
  flush-Extends c = record { more = e.emit c.prev_bank_id c.place c.accesses; appended = refl }

  collect-Extends :
      (sid : ℕ) (c : Collect S) → Extends c.instructions (collect e sid c).instructions
  unfolding collect
  collect-Extends sid c =
      if-cases (λ (d : Collect S). Extends c.instructions d.instructions)
        (not (bank_of e sid == c.prev_bank_id) || sid == e.n_spatial_elems - 1) _ _
        (λ t. flush-Extends (record c { place = (e.allocate sid c.place).1 }))
        (λ t. Extends-refl c.instructions)

  collect_all-Extends :
      (rounds sid : ℕ) (c : Collect S)
      → Extends c.instructions (collect_all e rounds sid c).instructions
  unfolding collect_all
  collect_all-Extends zero sid c = Extends-refl c.instructions
  collect_all-Extends (suc rounds) sid c =
      if-cases (λ (d : Collect S). Extends c.instructions d.instructions)
        (e.single_bank && ltb 0 (sid / e.cols_per_bank)) _ _ (λ t. flush-Extends c)
        (λ t.
          Extends-trans (collect-Extends sid c)
            (collect_all-Extends rounds (sid + 1) (collect e sid c)))

  collect_tensor-Extends :
      (instructions : List Trace) (place : S)
      → Extends instructions (collect_tensor e instructions place).instructions
  unfolding collect_tensor
  collect_tensor-Extends instructions place = collect_all-Extends e.n_spatial_elems 0 _

module _ (m : Machine) (k : Kernel) where
  no_duplicate_tensors-Extends :
      (tensors : PimTensors) (rounds i : ℕ) (instructions : List Trace)
      → Extends instructions (no_duplicate_tensors m k tensors rounds i instructions)
  unfolding no_duplicate_tensors
  no_duplicate_tensors-Extends tensors zero i instructions = Extends-refl instructions
  no_duplicate_tensors-Extends tensors (suc rounds) i instructions =
      Extends-trans (collect_tensor-Extends (no_duplicate_elements m k tensors i) instructions tt)
        (no_duplicate_tensors-Extends tensors rounds (i + 1) _)

  no_duplicate_steps-Extends :
      (ts : List ℕ) (tables : List (List Table)) (instructions : List Trace)
      → Extends instructions (no_duplicate_steps m k ts tables instructions).1
  unfolding no_duplicate_steps
  no_duplicate_steps-Extends [] tables instructions = Extends-refl instructions
  no_duplicate_steps-Extends (t ∷ ts) tables instructions =
      let inferred = infer_layout k.plan k.hierarchy k.bounds t tables in
      Extends-trans
        (no_duplicate_tensors-Extends inferred.0 (length k.plan.projections) 0 instructions)
        (no_duplicate_steps-Extends ts inferred.1 _)

  bank_duplicate_tensors-Extends :
      (tables : List (List Table)) (tensors : PimTensors) (rounds i : ℕ) (rows : Rows)
      (instructions : List Trace)
      → Extends instructions
          (bank_duplicate_tensors m k tables tensors rounds i rows instructions).1
  unfolding bank_duplicate_tensors
  bank_duplicate_tensors-Extends tables tensors zero i rows instructions = Extends-refl instructions
  bank_duplicate_tensors-Extends tables tensors (suc rounds) i rows instructions =
      Extends-trans
        (collect_tensor-Extends (bank_duplicate_elements m k tables tensors i) instructions rows)
        (bank_duplicate_tensors-Extends tables tensors rounds (i + 1) _ _)

  bank_duplicate_steps-Extends :
      (ts : List ℕ) (tables : List (List Table)) (rows : Rows) (instructions : List Trace)
      → Extends instructions (bank_duplicate_steps m k ts tables rows instructions).1
  unfolding bank_duplicate_steps
  bank_duplicate_steps-Extends [] tables rows instructions = Extends-refl instructions
  bank_duplicate_steps-Extends (t ∷ ts) tables rows instructions =
      let inferred = infer_layout k.plan k.hierarchy k.bounds t tables in
      Extends-trans
        (bank_duplicate_tensors-Extends inferred.1 inferred.0 (length k.plan.projections) 0 rows
          instructions)
        (bank_duplicate_steps-Extends ts inferred.1 _ _)

  row_duplicate_tensors-Extends :
      (cur_row : ℕ) (tensors : PimTensors) (rounds i : ℕ) (s : Columns m k)
      (instructions : List Trace)
      → Extends instructions (row_duplicate_tensors m k cur_row tensors rounds i s instructions).1
  unfolding row_duplicate_tensors
  row_duplicate_tensors-Extends cur_row tensors zero i s instructions = Extends-refl instructions
  row_duplicate_tensors-Extends cur_row tensors (suc rounds) i s instructions =
      Extends-trans
        (collect_tensor-Extends (row_duplicate_elements m k cur_row tensors i) instructions
          (record s { tensor_col_pos = [] }))
        (row_duplicate_tensors-Extends cur_row tensors rounds (i + 1) _ _)

  row_duplicate_steps-Extends :
      (ts : List ℕ) (tables : List (List Table)) (next_row : ℕ) (instructions : List Trace)
      → Extends instructions (row_duplicate_steps m k ts tables next_row instructions).1
  unfolding row_duplicate_steps
  row_duplicate_steps-Extends [] tables next_row instructions = Extends-refl instructions
  row_duplicate_steps-Extends (t ∷ ts) tables next_row instructions =
      let inferred = infer_layout k.plan k.hierarchy k.bounds t tables in
      Extends-trans
        (row_duplicate_tensors-Extends next_row inferred.0 (length k.plan.projections) 0 _
          instructions)
        (row_duplicate_steps-Extends ts inferred.1 _ _)

  pub codegen_no_duplicate-Extends :
      (tables : List (List Table)) (instructions : List Trace)
      → Extends instructions (codegen_no_duplicate m k tables instructions).1
  unfolding codegen_no_duplicate
  codegen_no_duplicate-Extends tables instructions =
      no_duplicate_steps-Extends (timesteps m.sim_timesteps k.hierarchy.sequential_steps) tables
        instructions

  pub codegen_bank_duplicate-Extends :
      (tables : List (List Table)) (instructions : List Trace)
      → Extends instructions (codegen_bank_duplicate m k tables instructions).1
  unfolding codegen_bank_duplicate
  codegen_bank_duplicate-Extends tables instructions =
      bank_duplicate_steps-Extends (timesteps m.sim_timesteps k.hierarchy.sequential_steps) tables
        (first_rows (length k.plan.projections)) instructions

  pub codegen_row_duplicate-Extends :
      (tables : List (List Table)) (instructions : List Trace)
      → Extends instructions (codegen_row_duplicate m k tables instructions).1
  unfolding codegen_row_duplicate
  codegen_row_duplicate-Extends tables instructions =
      row_duplicate_steps-Extends (timesteps m.sim_timesteps k.hierarchy.sequential_steps) tables 0
        instructions

module _ (k : Kernel) (build : ℕ → PimTensors → ℕ → Elements Fresh) where
  fresh_tensors-Extends :
      (cur_row : ℕ) (tensors : PimTensors) (rounds i next_row : ℕ) (seen : List (List (List ℕ)))
      (instructions : List Trace)
      → Extends instructions
          (fresh_tensors k build cur_row tensors rounds i next_row seen instructions).2
  unfolding fresh_tensors
  fresh_tensors-Extends cur_row tensors zero i next_row seen instructions =
      Extends-refl instructions
  fresh_tensors-Extends cur_row tensors (suc rounds) i next_row seen instructions =
      Extends-trans (collect_tensor-Extends (build cur_row tensors i) instructions _)
        (fresh_tensors-Extends cur_row tensors rounds (i + 1) _ _ _)

  pub fresh_steps-Extends :
      (ts : List ℕ) (tables : List (List Table)) (next_row : ℕ) (seen : List (List (List ℕ)))
      (instructions : List Trace)
      → Extends instructions (fresh_steps k build ts tables next_row seen instructions).1
  unfolding fresh_steps
  fresh_steps-Extends [] tables next_row seen instructions = Extends-refl instructions
  fresh_steps-Extends (t ∷ ts) tables next_row seen instructions =
      let inferred = infer_layout k.plan k.hierarchy k.bounds t tables in
      Extends-trans
        (fresh_tensors-Extends next_row inferred.0 (length k.plan.projections) 0 next_row seen
          instructions)
        (fresh_steps-Extends ts inferred.1 _ _ _)

codegen_new-Extends :
    (m : Machine) (k : Kernel) (tables : List (List Table)) (instructions : List Trace)
    → Extends instructions (codegen_new m k tables instructions).1
unfolding codegen_new
codegen_new-Extends m k tables instructions =
    fresh_steps-Extends k (fresh_elements m k)
      (timesteps m.sim_timesteps k.hierarchy.sequential_steps) tables 0
      (replicate (length k.plan.projections) (replicate (elems_of k) [])) instructions

some-Extends :
    {tables after : List (List Table)} {before made out : List Trace}
    → Extends before made
    → ◌≡◌ {A = Option (List (List Table) × List Trace)} (some (tables, made)) (some (after, out))
    → Extends before out
some-Extends {before = before} appended e =
    subst (λ (x : List (List Table) × List Trace). Extends before x.1) (some_inj e) appended

abbrev Answers :
    List (List Table) → List Trace → List Trace → Option (List (List Table) × List Trace) → Type 0
Answers after out instructions o = o ≡ some (after, out) → Extends instructions out

-- Whatever the allocation method, where the generator does not throw, the instructions that it answers
-- are those that it was given with more behind them.
pub codegen-Extends :
    (alloc_method : String) (m : Machine) (k : Kernel) (tables after : List (List Table))
    (instructions out : List Trace)
    → codegen alloc_method m k tables instructions ≡ some (after, out)
    → Extends instructions out
unfolding codegen
codegen-Extends alloc_method m k tables after instructions out =
    if-cases (Answers after out instructions) (str_eq alloc_method "bank_duplicate") _ _
      (λ t e. some-Extends (codegen_bank_duplicate-Extends m k tables instructions) e)
      (λ u.
        if-cases (Answers after out instructions) (str_eq alloc_method "row_duplicate") _ _
          (λ t e. some-Extends (codegen_row_duplicate-Extends m k tables instructions) e)
          (λ v.
            if-cases (Answers after out instructions) (str_eq alloc_method "no_duplicate") _ _
              (λ t e. some-Extends (codegen_no_duplicate-Extends m k tables instructions) e)
              (λ w.
                if-cases (Answers after out instructions) (str_eq alloc_method "new") _ _
                  (λ t e. some-Extends (codegen_new-Extends m k tables instructions) e)
                  (λ t e. absurd (none≢some e)))))
