-- ===== src/Codegen/Simdram/Majority.antt =====
-- The operations of one row of an output tensor in the SIMDRAM code generator
-- (simulator/src/pim_codegen/impl/simdram.cpp).
use kvc_pim.Base.{
  ℕ, get_elem?, length, length-append, zero, suc, ◌+◌, ◌*◌, ◌%◌, ◌<◌, ◌≡◌, refl, ap, ◌∙◌, Bool,
  some, List, [], ◌∷◌, arith, sym, ◌++◌, append-nil, get_elem?-append_right, get_elem?-append_left,
  none≢some, some_inj, subst,
}
use native.Mathlib.Nat.{suc-mul, mod-eq_of_lt, mod-lt, mod-add-mod}
use kvc_pim.Dram.{Dram}
use kvc_pim.KvTrace.{Trace, bank_read, read}
use kvc_pim.Codegen.Simdram.{
  output, majority_ops, load_columns, load_bits, bank_rows, place_addr, compute_ops,
}
use kvc_pim.Codegen.Generate.{Access}
use kvc_pim.Codegen.{source_bank_of, row_of}

get_elem?-lt : (xs : List Access) (c : ℕ) (a : Access) → get_elem? xs c ≡ some a → c < length xs
get_elem?-lt [] c a h = absurd (none≢some h)
get_elem?-lt (x ∷ xs) zero a h = omega arith
get_elem?-lt (x ∷ xs) (suc c) a h = omega (arith, get_elem?-lt xs c a h)

below_rows : (r m n c : ℕ) → r < m → c < n → r * n + c < m * n
below_rows r m n c h l = grind arith

module _ (dram : Dram) (pe_bits : ℕ) (first_time_in_col : Bool) where
  length-majority_ops :
      (tagged rounds cur_row : ℕ)
      → length (majority_ops dram pe_bits output first_time_in_col tagged rounds cur_row) ≡ rounds
  unfolding majority_ops
  length-majority_ops tagged zero cur_row = refl
  length-majority_ops tagged (suc rounds) cur_row =
      ap suc (length-majority_ops tagged rounds ((cur_row + 1) % pe_bits))

  length-load_columns :
      (tagged bit_row : ℕ) (accesses : List Access)
      → length (load_columns dram pe_bits output first_time_in_col tagged bit_row accesses)
        ≡ length accesses
  unfolding load_columns
  length-load_columns tagged bit_row [] = refl
  length-load_columns tagged bit_row (a ∷ accesses) =
      ap suc (length-load_columns tagged bit_row accesses)

  length-load_bits :
      (tagged rounds bit_row : ℕ) (accesses : List Access)
      → length (load_bits dram pe_bits output first_time_in_col tagged rounds bit_row accesses)
        ≡ rounds * length accesses
  unfolding load_bits
  length-load_bits tagged zero bit_row accesses = omega arith
  length-load_bits tagged (suc rounds) bit_row accesses =
      length-append (load_columns dram pe_bits output first_time_in_col tagged bit_row accesses)
        (load_bits dram pe_bits output first_time_in_col tagged rounds (bit_row + 1) accesses)
      ∙ omega (
        arith,
        length-load_columns tagged bit_row accesses,
        length-load_bits tagged rounds (bit_row + 1) accesses,
        suc-mul rounds (length accesses),
      )

  column_at :
      (tagged bit_row c : ℕ) (accesses : List Access) (a : Access)
      → get_elem? accesses c ≡ some a
      → get_elem? (load_columns dram pe_bits output first_time_in_col tagged bit_row accesses) c
        ≡ some (
          read,
          place_addr dram (source_bank_of dram tagged) (row_of dram tagged + bit_row) a.col,
        )
  unfolding load_columns
  column_at tagged bit_row c [] a h = absurd (none≢some h)
  column_at tagged bit_row zero (x ∷ accesses) a h =
      ap
        (λ y.
          some (
            read,
            place_addr dram (source_bank_of dram tagged) (row_of dram tagged + bit_row) y.col,
          ))
        (some_inj h)
  column_at tagged bit_row (suc c) (x ∷ accesses) a h = column_at tagged bit_row c accesses a h

  -- Row `r` of the bits, column `c`.
  bit_at :
      (tagged rounds bit_row r c : ℕ) (accesses : List Access) (a : Access)
      → r < rounds
      → get_elem? accesses c ≡ some a
      → get_elem?
          (load_bits dram pe_bits output first_time_in_col tagged rounds bit_row accesses)
          (r * length accesses + c)
        ≡ some (
          read,
          place_addr dram (source_bank_of dram tagged) (row_of dram tagged + (bit_row + r)) a.col,
        )
  unfolding load_bits
  bit_at tagged zero bit_row r c accesses a h e = absurd (omega arith)
  bit_at tagged (suc rounds) bit_row zero c accesses a h e =
      let row = load_columns dram pe_bits output first_time_in_col tagged bit_row accesses in
      let n = length-load_columns tagged bit_row accesses in
      get_elem?-append_left row _ (0 * length accesses + c)
        (omega (arith, n, get_elem?-lt accesses c a e))
      ∙ ap (get_elem? row) (omega arith)
      ∙ column_at tagged bit_row c accesses a e
      ∙ ap
          (λ b.
            some
              (read, place_addr dram (source_bank_of dram tagged) (row_of dram tagged + b) a.col))
          (omega arith)
  bit_at tagged (suc rounds) bit_row (suc r) c accesses a h e =
      let row = load_columns dram pe_bits output first_time_in_col tagged bit_row accesses in
      let n = length-load_columns tagged bit_row accesses in
      get_elem?-append_right row _ (suc r * length accesses + c) (r * length accesses + c)
        (omega (arith, n, suc-mul r (length accesses)))
      ∙ bit_at tagged rounds (bit_row + 1) r c accesses a (omega arith) e
      ∙ ap
          (λ b.
            some
              (read, place_addr dram (source_bank_of dram tagged) (row_of dram tagged + b) a.col))
          (omega arith)

  majority_row :
      (tagged rounds cur_row j : ℕ)
      → cur_row < pe_bits
      → j < rounds
      → get_elem? (majority_ops dram pe_bits output first_time_in_col tagged rounds cur_row) j
        ≡ some (
          bank_read,
          place_addr dram
              (source_bank_of dram tagged)
              (row_of dram tagged + (cur_row + j) % pe_bits)
              0,
        )
  unfolding majority_ops
  majority_row tagged zero cur_row j h l = absurd (omega arith)
  majority_row tagged (suc rounds) cur_row zero h l =
      ap
        (λ r.
          some (bank_read, place_addr dram (source_bank_of dram tagged) (row_of dram tagged + r) 0))
        (sym (ap (λ n. n % pe_bits) {y = cur_row} (omega arith) ∙ mod-eq_of_lt h))
  majority_row tagged (suc rounds) cur_row (suc j) h l =
      majority_row tagged rounds ((cur_row + 1) % pe_bits) j (mod-lt (cur_row + 1) (omega arith))
        (omega arith)
      ∙ ap
          (λ r.
            some
              (bank_read, place_addr dram (source_bank_of dram tagged) (row_of dram tagged + r) 0))
          (mod-add-mod (cur_row + 1) pe_bits j ∙ ap (λ n. n % pe_bits) (omega arith))

  -- What one row of an output tensor makes, of which nothing is left out: its size, the reads of each
  -- bit, a column each, and the operations inside the bank.
  pub record OutputRow (tagged : ℕ) (accesses : List Access) (traces : List Trace) : Type 0 where
    pub size : length traces ≡ pe_bits * length accesses + (7 * pe_bits * pe_bits + 1)
    pub loads :
        (r c : ℕ) (a : Access)
        → r < pe_bits
        → get_elem? accesses c ≡ some a
        → get_elem? traces (r * length accesses + c)
          ≡ some (read, place_addr dram (source_bank_of dram tagged) (row_of dram tagged + r) a.col)
    pub majority :
        (j : ℕ)
        → j < 7 * pe_bits * pe_bits + 1
        → get_elem? traces (pe_bits * length accesses + j)
          ≡ some (
            bank_read,
            place_addr dram (source_bank_of dram tagged) (row_of dram tagged + j % pe_bits) 0,
          )

  -- For one row of an output tensor, the values of which have n > 0 bits, the generator makes for each
  -- bit a read of each column, in the row of that bit, and then 7 n ^ 2 + 1 operations inside the bank,
  -- the j-th in column 0 of the row j places, around the n rows of the value, after the first one;
  -- nothing else.
  pub bank_rows-output :
      (tagged : ℕ) (accesses : List Access)
      → 0 < pe_bits
      → OutputRow tagged accesses
          (bank_rows dram pe_bits output first_time_in_col ((tagged, accesses) ∷ []))
  unfolding bank_rows compute_ops
  bank_rows-output tagged accesses h =
      let loads = load_bits dram pe_bits output first_time_in_col tagged pe_bits 0 accesses in
      let ops =
        majority_ops dram pe_bits output first_time_in_col tagged (7 * pe_bits * pe_bits + 1) 0 in
      let n = length-load_bits tagged pe_bits 0 accesses in
      record {
        size =
            length-append loads (ops ++ [])
            ∙ omega (
              arith,
              n,
              length-append ops [],
              length-majority_ops tagged (7 * pe_bits * pe_bits + 1) 0,
            );
        loads = λ r c a l e.
            get_elem?-append_left loads (ops ++ []) (r * length accesses + c) (
              subst (λ m. r * length accesses + c < m) (sym n)
                (below_rows r pe_bits (length accesses) c l (get_elem?-lt accesses c a e)))
            ∙ bit_at tagged pe_bits 0 r c accesses a l e
            ∙ ap
                (λ b. some (
                  read,
                  place_addr dram (source_bank_of dram tagged) (row_of dram tagged + b) a.col,
                ))
                {x = 0 + r} (omega arith);
        majority = λ j l.
            get_elem?-append_right loads (ops ++ []) (pe_bits * length accesses + j) j
              (omega (arith, n))
            ∙ ap (λ xs. get_elem? xs j) (append-nil ops)
            ∙ majority_row tagged (7 * pe_bits * pe_bits + 1) 0 j h l
            ∙ ap
                (λ r. some (
                  bank_read,
                  place_addr dram (source_bank_of dram tagged) (row_of dram tagged + r % pe_bits) 0,
                ))
                {x = 0 + j} (omega arith);
      }
