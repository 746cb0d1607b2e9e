-- ===== src/Codegen/BankTable.antt =====
-- The tables of the FIMDRAM code generator (simulator/src/pim_codegen/impl/fimdram.cpp) against the
-- bank numbers of the trace generator.
use kvc_pim.Base.{
  ℕ, get_elem?, get_or, get_or-replicate, length, length-replicate, length-set, replicate, set,
  zero, suc, ◌+◌, ◌*◌, ◌/◌, ◌%◌, ◌≤◌, ◌<◌, ◌≡◌, refl, sym, ap, ◌∙◌, some, List, [], ◌∷◌, arith,
}
use native.Mathlib.Nat.{mul-add-div_right, add-mul-mod_self_right, mod-eq_of_lt, div-eq_of_lt}
use kvc_pim.Dram.{Dram, fill_levels, bank_addr_vec}
use kvc_pim.Dram.Decompose.{capacity, length-fill_levels, get_or-fill_levels}
use kvc_pim.Codegen.{
  level_product, fill_bank_base_addr, bank_base_addr, rows_per_bank, add_bank_tag, row_of,
  source_bank_of,
}

list_ext :
    (xs ys : List ℕ) → length xs ≡ length ys → ((j : ℕ) → get_or xs j 0 ≡ get_or ys j 0) → xs ≡ ys
list_ext [] [] e h = refl
list_ext [] (y ∷ ys) e h = absurd (omega arith)
list_ext (x ∷ xs) [] e h = absurd (omega arith)
list_ext (x ∷ xs) (y ∷ ys) e h =
    ap (λ z. z ∷ xs) (h 0) ∙ ap (λ zs. y ∷ zs) (list_ext xs ys (omega arith) (λ j. h (suc j)))

-- Two vectors that agree from a level on agree from the level above once that is written.
set_agree :
    (xs ys : List ℕ) (level v j : ℕ)
    → length xs ≡ length ys
    → level ≤ j
    → ((i : ℕ) → suc level ≤ i → get_or xs i 0 ≡ get_or ys i 0)
    → get_or (set xs level v) j 0 ≡ get_or (set ys level v) j 0
set_agree [] [] level v j e le h = refl
set_agree [] (y ∷ ys) level v j e le h = absurd (omega arith)
set_agree (x ∷ xs) [] level v j e le h = absurd (omega arith)
set_agree (x ∷ xs) (y ∷ ys) zero v zero e le h = refl
set_agree (x ∷ xs) (y ∷ ys) zero v (suc j) e le h = h (suc j) (omega arith)
set_agree (x ∷ xs) (y ∷ ys) (suc level) v zero e le h = absurd (omega arith)
set_agree (x ∷ xs) (y ∷ ys) (suc level) v (suc j) e le h =
    set_agree xs ys level v j (omega arith) (omega arith) (λ i p. h (suc i) (omega arith))

-- The decomposition depends on the old vector only below the bank.
fill_levels-agree :
    (count : List ℕ) (levels id : ℕ) (xs ys : List ℕ)
    → length xs ≡ length ys
    → ((j : ℕ) → levels ≤ j → get_or xs j 0 ≡ get_or ys j 0)
    → fill_levels count levels id xs ≡ fill_levels count levels id ys
unfolding fill_levels
fill_levels-agree count zero id xs ys e h = list_ext xs ys e (λ j. h j (omega arith))
fill_levels-agree count (suc level) id xs ys e h =
    fill_levels-agree count level (id / get_or count level 0)
      (set xs level (id % get_or count level 0)) (set ys level (id % get_or count level 0))
      (length-set xs level (id % get_or count level 0)
        ∙ e
        ∙ sym (length-set ys level (id % get_or count level 0)))
      (λ j le. set_agree xs ys level (id % get_or count level 0) j e le h)

get_elem?-fill_bank_base_addr :
    (dram : Dram) (rounds bank i : ℕ) (addr_vec : List ℕ)
    → length addr_vec ≡ length dram.count
    → ((j : ℕ) → dram.bank_level + 1 ≤ j → get_or addr_vec j 0 ≡ 0)
    → i < rounds
    → get_elem? (fill_bank_base_addr dram rounds bank addr_vec) i
      ≡ some (bank_addr_vec dram (bank + i))
unfolding fill_bank_base_addr bank_addr_vec
get_elem?-fill_bank_base_addr dram zero bank i addr_vec e h lt = absurd (omega arith)
get_elem?-fill_bank_base_addr dram (suc rounds) bank zero addr_vec e h lt = ap some (
    fill_levels-agree dram.count (dram.bank_level + 1) bank addr_vec
      (replicate (length dram.count) 0) (e ∙ sym (length-replicate (length dram.count) 0))
      (λ j le. h j le ∙ sym (get_or-replicate {A = ℕ} (length dram.count) j 0))
    ∙ ap (λ b. fill_levels dram.count (dram.bank_level + 1) b (replicate (length dram.count) 0))
        {y = bank + 0} (omega arith))
get_elem?-fill_bank_base_addr dram (suc rounds) bank (suc i) addr_vec e h lt =
    get_elem?-fill_bank_base_addr dram rounds (bank + 1) i
      (fill_levels dram.count (dram.bank_level + 1) bank addr_vec)
      (length-fill_levels dram.count (dram.bank_level + 1) bank addr_vec ∙ e)
      (λ j le. get_or-fill_levels dram.count (dram.bank_level + 1) bank addr_vec j le ∙ h j le)
      (omega arith)
    ∙ ap
        (λ b.
          some (fill_levels dram.count (dram.bank_level + 1) b (replicate (length dram.count) 0)))
        {y = bank + suc i} (omega arith)

level_product_lem :
    (count : List ℕ) (levels : ℕ) → level_product count 0 levels ≡ capacity count levels
unfolding level_product capacity
level_product_lem count zero = refl
level_product_lem count (suc levels) =
    ap (λ n. n * get_or count (0 + levels) 0) (level_product_lem count levels)
    ∙ ap (λ n. capacity count levels * get_or count n 0) {x = 0 + levels} (omega arith)

-- For every bank of the device, the address vector in the code generator's table is the one that the
-- trace generator decomposes that bank into, though the table's loop carries one vector along.
pub get_elem?-bank_base_addr :
    (dram : Dram) (bank : ℕ)
    → bank < capacity dram.count (dram.bank_level + 1)
    → get_elem? (bank_base_addr dram) bank ≡ some (bank_addr_vec dram bank)
unfolding bank_base_addr
get_elem?-bank_base_addr dram bank h =
    get_elem?-fill_bank_base_addr dram (level_product dram.count 0 (dram.bank_level + 1)) 0 bank
      (replicate (length dram.count) 0) (length-replicate (length dram.count) 0)
      (λ j le. get_or-replicate {A = ℕ} (length dram.count) j 0)
      (omega (arith, h, level_product_lem dram.count (dram.bank_level + 1)))
    ∙ ap (λ b. some (bank_addr_vec dram b)) {x = 0 + bank} (omega arith)

-- A row offset within a bank and the bank's number are both read back from the tagged offset.
pub add_bank_tag_lem :
    (dram : Dram) (row_offset bank : ℕ)
    → row_offset < rows_per_bank dram
    → (row_of dram (add_bank_tag dram row_offset bank) ≡ row_offset)
      × (source_bank_of dram (add_bank_tag dram row_offset bank) ≡ bank)
unfolding add_bank_tag
add_bank_tag_lem dram row_offset bank h =
    let r : ℕ = rows_per_bank dram in
    let some_row : 0 < r = omega (arith, h) in
    (
      ap (λ n. n % r) {y = row_offset + bank * r} (omega arith)
          ∙ add-mul-mod_self_right row_offset bank r
          ∙ mod-eq_of_lt h,
      mul-add-div_right some_row bank row_offset
          ∙ ap (λ n. bank + n) (div-eq_of_lt h)
          ∙ omega arith,
    )
