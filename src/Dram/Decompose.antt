-- ===== src/Dram/Decompose.antt =====
-- The decomposition of a bank number is the mixed-radix numeral of that number.
use kvc_pim.Base.{
  ℕ, get_or, get_or-set_ne, length, length-set, set, zero, suc, ◌+◌, ◌*◌, ◌%◌, ◌≤◌, ◌<◌, ◌≡◌, refl,
  ◌∙◌, List, arith, get_or-replicate, get_or-set_self, length-replicate, replicate, ◌/◌, sym, ap,
  subst,
}
use native.Mathlib.Nat.{mod-lt, div-lt_iff_lt-mul, div-add-mod'}
use native.Mathlib.Decide.{ℕ_discrete}
use kvc_pim.Dram.{Dram, fill_levels, bank_addr_vec}

-- The number of positions that the first `levels` levels make up, and the number of one of them.
unfoldable pub capacity : List ℕ → ℕ → ℕ
capacity count zero = 1
capacity count (suc level) = capacity count level * get_or count level 0

pub position : List ℕ → List ℕ → ℕ → ℕ
position count addr zero = 0
position count addr (suc level) =
    position count addr level * get_or count level 0 + get_or addr level 0

pub length-fill_levels :
    (count : List ℕ) (levels id : ℕ) (addr : List ℕ)
    → length (fill_levels count levels id addr) ≡ length addr
unfolding fill_levels
length-fill_levels count zero id addr = refl
length-fill_levels count (suc level) id addr =
    length-fill_levels count level _ _ ∙ length-set addr level (id % get_or count level 0)

-- The levels that the loop does not visit keep their entries.
pub get_or-fill_levels :
    (count : List ℕ) (levels id : ℕ) (addr : List ℕ) (j : ℕ)
    → levels ≤ j
    → get_or (fill_levels count levels id addr) j 0 ≡ get_or addr j 0
unfolding fill_levels
get_or-fill_levels count zero id addr j h = refl
get_or-fill_levels count (suc level) id addr j h =
    get_or-fill_levels count level _ _ j (omega arith)
    ∙ get_or-set_ne addr level j (id % get_or count level 0) 0 (omega arith)

-- The entry of the lowest level.
fill_levels_lowest :
    (count : List ℕ) (level id : ℕ) (addr : List ℕ)
    → level < length addr
    → get_or (fill_levels count (suc level) id addr) level 0 ≡ id % get_or count level 0
unfolding fill_levels
fill_levels_lowest count level id addr h =
    get_or-fill_levels count level _ _ level (omega arith)
    ∙ get_or-set_self addr level (id % get_or count level 0) 0 h

-- Every entry that the loop writes is below the size of its level.
pub get_or-fill_levels-lt :
    (count : List ℕ) (levels id : ℕ) (addr : List ℕ) (j : ℕ)
    → levels ≤ length addr
    → j < levels
    → 0 < get_or count j 0
    → get_or (fill_levels count levels id addr) j 0 < get_or count j 0
unfolding fill_levels
get_or-fill_levels-lt count zero id addr j h lt p = absurd (omega arith)
get_or-fill_levels-lt count (suc level) id addr j h lt p = elim (ℕ_discrete j level) [
  | yes e ↦
      subst (λ k. get_or (fill_levels count (suc level) id addr) k 0 < get_or count k 0) (sym e)
        (rw (fill_levels_lowest count level id addr h)
          (mod-lt id (subst (λ k. 0 < get_or count k 0) e p)))
  | no ne ↦
      get_or-fill_levels-lt count level _ (set addr level (id % get_or count level 0)) j
        (omega (arith, length-set addr level (id % get_or count level 0))) (omega arith) p
]

positive_factor : (a c x : ℕ) → x < a * c → 0 < c
positive_factor a zero x h = absurd (omega arith)
positive_factor a (suc c) x h = omega arith

-- The entries make up the number, if it is below the capacity.
pub position-fill_levels :
    (count : List ℕ) (levels id : ℕ) (addr : List ℕ)
    → levels ≤ length addr
    → id < capacity count levels
    → position count (fill_levels count levels id addr) levels ≡ id
unfolding fill_levels capacity position
position-fill_levels count zero id addr h lt = omega arith
position-fill_levels count (suc level) id addr h lt =
    let c : ℕ = get_or count level 0 in
    let pos_c : 0 < c = positive_factor (capacity count level) c id lt in
    let upper =
      position-fill_levels count level (id / c) (set addr level (id % c))
        (omega (arith, length-set addr level (id % c)))
        ((div-lt_iff_lt-mul {k = c} {x = id} {y = capacity count level} pos_c).1 lt) in
    ap (λ k. k * c + get_or (fill_levels count (suc level) id addr) level 0) upper
    ∙ ap (λ k. id / c * c + k) (fill_levels_lowest count level id addr h)
    ∙ div-add-mod' id c

-- A bank below the number of banks is read back from its address vector; each entry down to the bank
-- level is within its level, and the entries below are 0.
pub bank_addr_vec_lem :
    (dram : Dram) (bank : ℕ)
    → dram.bank_level < length dram.count
    → ((j : ℕ) → j ≤ dram.bank_level → 0 < get_or dram.count j 0)
    → bank < capacity dram.count (dram.bank_level + 1)
    → let addr = bank_addr_vec dram bank in
      (length addr ≡ length dram.count)
      × (position dram.count addr (dram.bank_level + 1) ≡ bank)
      × ((j : ℕ) → j ≤ dram.bank_level → get_or addr j 0 < get_or dram.count j 0)
      × ((j : ℕ) → dram.bank_level < j → get_or addr j 0 ≡ 0)
unfolding bank_addr_vec
bank_addr_vec_lem dram bank h sizes lt =
    let blank : List ℕ = replicate (length dram.count) 0 in
    let size : length blank ≡ length dram.count = length-replicate (length dram.count) 0 in
    (
      length-fill_levels dram.count (dram.bank_level + 1) bank blank ∙ size,
      position-fill_levels dram.count (dram.bank_level + 1) bank blank (omega arith) lt,
      λ j le.
          get_or-fill_levels-lt dram.count (dram.bank_level + 1) bank blank j (omega arith)
            (omega arith) (sizes j le),
      λ j le.
          get_or-fill_levels dram.count (dram.bank_level + 1) bank blank j (omega arith)
          ∙ get_or-replicate {A = ℕ} (length dram.count) j 0,
    )

-- Two banks below the number of banks with the same address vector are the same bank.
pub bank_addr_vec-injective :
    (dram : Dram) (a b : ℕ)
    → dram.bank_level < length dram.count
    → ((j : ℕ) → j ≤ dram.bank_level → 0 < get_or dram.count j 0)
    → a < capacity dram.count (dram.bank_level + 1)
    → b < capacity dram.count (dram.bank_level + 1)
    → bank_addr_vec dram a ≡ bank_addr_vec dram b
    → a ≡ b
bank_addr_vec-injective dram a b h sizes p q e =
    sym (bank_addr_vec_lem dram a h sizes p).1
    ∙ ap (λ addr. position dram.count addr (dram.bank_level + 1)) e
    ∙ (bank_addr_vec_lem dram b h sizes q).1

-- A write below the bank level does not move the bank.
pub position-set :
    (count addr : List ℕ) (levels level v : ℕ)
    → levels ≤ level
    → position count (set addr level v) levels ≡ position count addr levels
unfolding position
position-set count addr zero level v h = refl
position-set count addr (suc levels) level v h = rw (
  position-set count addr levels level v (omega arith),
  get_or-set_ne addr level levels v 0 (omega arith),
)
