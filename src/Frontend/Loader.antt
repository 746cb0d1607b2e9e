-- ===== src/Frontend/Loader.antt =====
-- `init_trace` of simulator/src/frontend/impl/memory_trace/pim_trace_kv_aware.cpp, and the numbers
-- that it gives to the kernels.
use kvc_pim.Base.{
  ℕ, Bool-cases, get_or, if◌then◌else◌, length, zero, suc, ◌≡◌, refl, inl, inr, Bool, true, false,
  Option, none, some, List, [], ◌∷◌, ◌++◌, arith, Option-cases, length-append, sym, ap, ◌∙◌, subst,
  append-nil,
}
use kvc_pim.KvTrace.{
  Op, Trace, read, write, compute, subarray_read, subarray_write, bank_read, bank_write,
}
use kvc_pim.Frontend.{is_kernel, kernel}

-- The first token of a line.
pub data Keyword : Type 0 where
  key_r key_w key_c key_sr key_sw key_br key_bw key_conv2d key_gemm key_end key_other : Keyword

-- `kernel_cmd` is only tested for being empty: here it says whether a kernel is open.
pub record Loader (Str : Type 0) : Type 0 where
  pub trace : List Trace
  pub kernels : List (List (List Str))
  pub kernel_open : Bool
  pub current_kernel : List (List Str)

abbrev pub empty_loader : {Str : Type 0} → Loader Str
empty_loader = record { trace = []; kernels = []; kernel_open = false; current_kernel = [] }

-- The operation of a line that is one.
unfoldable pub plain_op : Keyword → Option Op
plain_op key_r = some read
plain_op key_w = some write
plain_op key_c = some compute
plain_op key_sr = some subarray_read
plain_op key_sw = some subarray_write
plain_op key_br = some bank_read
plain_op key_bw = some bank_write
plain_op _ = none

-- The strings, the comparisons of a token with the keywords and `parse_addr_vec` are parameters.
module _ {Str : Type 0} (keyword : Str → Keyword) (parse_addr_vec : Str → List ℕ) where
  -- `parse_addr_vec(tokens[1])`; the source has no test that there is such a token.
  abbrev pub argument : List Str → List ℕ
  argument [] = []
  argument (s ∷ tokens) = parse_addr_vec s

  -- A line that is none of the operations.
  unfoldable pub load_kernel_line : Str → List Str → Loader Str → Loader Str
  load_kernel_line s tokens l =
      let opened = record l { kernel_open = true; current_kernel = (s ∷ tokens) ∷ [] } in
      let inside =
        if l.kernel_open
        then record l { current_kernel = l.current_kernel ++ ((s ∷ tokens) ∷ []) }
        else l in
      elim (keyword s) [
        | key_conv2d ↦ opened
        | key_gemm ↦ opened
        | key_end ↦
            if l.kernel_open
            then record l {
              kernels = l.kernels ++ (l.current_kernel ∷ []);
              kernel_open = false;
              trace = l.trace ++ ((kernel, length l.kernels ∷ []) ∷ []);
            }
            else l
        | _ ↦ inside
      ]

  -- One line, as its tokens; an empty line is skipped.
  unfoldable pub load_line : List Str → Loader Str → Loader Str
  unfolding plain_op load_kernel_line
  load_line [] l = l
  load_line (s ∷ tokens) l = elim (plain_op (keyword s)) [
    | none ↦ load_kernel_line s tokens l
    | some op ↦ record l { trace = l.trace ++ ((op, argument tokens) ∷ []) }
  ]

  unfoldable pub init_trace : List (List Str) → Loader Str → Loader Str
  unfolding load_line
  init_trace [] l = l
  init_trace (line ∷ lines) l = init_trace lines (load_line line l)

-- The numbers in the kernel operations of a trace, and 0, 1, ... below a bound.
unfoldable pub kernel_ids : List Trace → List ℕ
unfolding is_kernel
kernel_ids [] = []
kernel_ids ((op, addr_vec) ∷ trace) =
    if is_kernel op then get_or addr_vec 0 0 ∷ kernel_ids trace else kernel_ids trace

abbrev pub iota : ℕ → List ℕ
iota zero = []
iota (suc n) = iota n ++ (n ∷ [])

kernel_ids-append : (xs ys : List Trace) → kernel_ids (xs ++ ys) ≡ kernel_ids xs ++ kernel_ids ys
unfolding kernel_ids is_kernel
kernel_ids-append [] ys = refl
kernel_ids-append ((op, addr_vec) ∷ xs) ys = elim (Bool-cases (is_kernel op)) [
  | inl e ↦ rw (e, kernel_ids-append xs ys) refl
  | inr e ↦ rw (e, kernel_ids-append xs ys) refl
]

-- A line that is an operation is not a kernel.
plain_op_plain : (k : Keyword) (op : Op) → plain_op k ≡ some op → is_kernel op ≡ false
unfolding plain_op is_kernel
plain_op_plain k op h = ground arith

-- The kernel operations of a trace name the kernels 0, 1, ... in their order, each once.
abbrev pub IsNumbered : {Str : Type 0} → Loader Str → Type 0
IsNumbered l = kernel_ids l.trace ≡ iota (length l.kernels)

module _ {Str : Type 0} (keyword : Str → Keyword) (parse_addr_vec : Str → List ℕ) where
  plain-IsNumbered :
      (op : Op) (addr_vec : List ℕ) (l : Loader Str)
      → is_kernel op ≡ false
      → IsNumbered l
      → kernel_ids (l.trace ++ ((op, addr_vec) ∷ [])) ≡ iota (length l.kernels)
  unfolding kernel_ids
  plain-IsNumbered op addr_vec l e h =
      kernel_ids-append l.trace ((op, addr_vec) ∷ [])
      ∙ rw (e, h) (append-nil (iota (length l.kernels)))

  grown_iota : (n m : ℕ) → m ≡ suc n → iota n ++ (n ∷ []) ≡ iota m
  grown_iota n m e = ap iota (sym e)

  end-IsNumbered :
      (l : Loader Str)
      → IsNumbered l
      → kernel_ids (l.trace ++ ((kernel, length l.kernels ∷ []) ∷ []))
        ≡ iota (length (l.kernels ++ (l.current_kernel ∷ [])))
  unfolding kernel_ids is_kernel
  end-IsNumbered l h =
      kernel_ids-append l.trace ((kernel, length l.kernels ∷ []) ∷ [])
      ∙ rw h (
          grown_iota (length l.kernels) (length (l.kernels ++ (l.current_kernel ∷ [])))
            (omega (arith, length-append l.kernels (l.current_kernel ∷ []))))

  load_line_plain :
      (s : Str) (tokens : List Str) (l : Loader Str) (op : Op)
      → plain_op (keyword s) ≡ some op
      → load_line keyword parse_addr_vec (s ∷ tokens) l
        ≡ record l { trace = l.trace ++ ((op, argument keyword parse_addr_vec tokens) ∷ []) }
  unfolding load_line
  load_line_plain s tokens l op e = rw (e, load_line) refl

  load_line_other :
      (s : Str) (tokens : List Str) (l : Loader Str)
      → plain_op (keyword s) ≡ none
      → load_line keyword parse_addr_vec (s ∷ tokens) l
        ≡ load_kernel_line keyword parse_addr_vec s tokens l
  unfolding load_line
  load_line_other s tokens l e = rw (e, load_line) refl

  load_kernel_line-IsNumbered :
      (s : Str) (tokens : List Str) (l : Loader Str)
      → IsNumbered l
      → IsNumbered (load_kernel_line keyword parse_addr_vec s tokens l)
  unfolding load_kernel_line
  load_kernel_line-IsNumbered s tokens l h = let e = end-IsNumbered l h in ground arith

  load_line-IsNumbered :
      (line : List Str) (l : Loader Str)
      → IsNumbered l
      → IsNumbered (load_line keyword parse_addr_vec line l)
  unfolding load_line
  load_line-IsNumbered [] l h = h
  load_line-IsNumbered (s ∷ tokens) l h = elim (Option-cases (plain_op (keyword s))) [
    | inl e ↦
        subst IsNumbered (sym (load_line_other s tokens l e))
          (load_kernel_line-IsNumbered s tokens l h)
    | inr p ↦ subst IsNumbered (sym (load_line_plain s tokens l p.0 p.1)) (
        plain-IsNumbered p.0 (argument keyword parse_addr_vec tokens) l
          (plain_op_plain (keyword s) p.0 p.1) h)
  ]

  -- However the lines of a trace file are, the kernel operations of the loaded trace name the kernels
  -- that were stored, 0, 1, ... in their order and each once: no number is out of range.
  pub init_trace-IsNumbered :
      (lines : List (List Str)) (l : Loader Str)
      → IsNumbered l
      → IsNumbered (init_trace keyword parse_addr_vec lines l)
  unfolding init_trace
  init_trace-IsNumbered [] l h = h
  init_trace-IsNumbered (line ∷ lines) l h =
      init_trace-IsNumbered lines (load_line keyword parse_addr_vec line l)
        (load_line-IsNumbered line l h)
