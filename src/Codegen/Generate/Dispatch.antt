-- ===== src/Codegen/Generate/Dispatch.antt =====
-- The choice of the allocation method in `codegen` of simulator/src/pim_codegen/impl/fimdram.cpp.
use kvc_pim.Base.{if◌then◌else◌, Option, none, some, List}
use Prim.Native.String.{String}
use text.Mathlib.Text.{◌==◌ as str_eq}
use kvc_pim.Codegen.Generate.{Kernel, Machine}
use kvc_pim.Layout.Numbering.{Table}
use kvc_pim.KvTrace.{Trace}
use kvc_pim.Codegen.Generate.NoDuplicate.{codegen_no_duplicate}
use kvc_pim.Codegen.Generate.BankDuplicate.{codegen_bank_duplicate}
use kvc_pim.Codegen.Generate.RowDuplicate.{codegen_row_duplicate}
use kvc_pim.Codegen.Generate.Fresh.{codegen_new}

-- `codegen`; `none` is the exception for any other method.
unfoldable pub codegen :
    String
    → Machine
    → Kernel
    → List (List Table)
    → List Trace
    → Option (List (List Table) × List Trace)
unfolding codegen_bank_duplicate codegen_row_duplicate codegen_no_duplicate codegen_new
codegen alloc_method m k tables instructions =
    if str_eq alloc_method "bank_duplicate"
    then some (codegen_bank_duplicate m k tables instructions)
    else if str_eq alloc_method "row_duplicate"
    then some (codegen_row_duplicate m k tables instructions)
    else if str_eq alloc_method "no_duplicate"
    then some (codegen_no_duplicate m k tables instructions)
    else if str_eq alloc_method "new"
    then some (codegen_new m k tables instructions)
    else none
