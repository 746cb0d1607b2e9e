-- ===== src/Layout/Numbering/Tables.antt =====
-- The tables of `infer_layout` in simulator/src/pim_codegen/layout.h number the hashes that they hold
-- one to one, through every time step.
use kvc_pim.Base.{
  ℕ, Option-cases, get_or, length, lookup, ltb, set, zero, suc, ◌+◌, ◌/◌, ◌<◌, ◌≡◌, inl, inr, Bool,
  ◌&&◌, none, some, List, [], ◌∷◌, arith, if-cases, none≢some, nat_key, replicate, refl,
}
use kvc_pim.Layout.{spatial_elems}
use kvc_pim.Layout.Infer.{infer_pim_tensors}
use kvc_pim.Layout.Numbering.{
  Table, number_hash, number_tensors, DataSpaceIdx, PimTensors, number_elements, number_steps,
  empty_table, first_tables, infer_layout, Plan, SpatialHierarchy, cols_per_bank,
}

-- The entries are numbered from 0 in the order of their insertion, and no hash is entered twice.
abbrev pub Ordered : List (ℕ × ℕ) → Type 0
Ordered [] = Unit {0}
Ordered ((hash, idx) ∷ entries) =
    (idx ≡ length entries) × (lookup hash entries ≡ none) × Ordered entries

pub record IsNumbering (table : Table) : Type 0 where
  pub ordered : Ordered table.entries
  pub counted : table.count ≡ length table.entries

pub number_hash-IsNumbering :
    (hash : ℕ) (table : Table) → IsNumbering table → IsNumbering (number_hash hash table)
unfolding number_hash
number_hash-IsNumbering hash table h = elim (Option-cases (lookup hash table.entries)) [
  | inl e ↦
      rw (e, number_hash)
        (record { ordered = (h.counted, e, h.ordered); counted = omega (arith, h.counted) })
  | inr (idx, e) ↦ rw (e, number_hash) h
]

abbrev pub AllNumbered : List Table → Type 0
AllNumbered [] = Unit {0}
AllNumbered (table ∷ tables) = IsNumbering table × AllNumbered tables

abbrev pub AllBanks : List (List Table) → Type 0
AllBanks [] = Unit {0}
AllBanks (row ∷ tables) = AllNumbered row × AllBanks tables

number_tensors-AllNumbered :
    (bounds : List DataSpaceIdx) (tensors : PimTensors) (sid tid : ℕ) (tables : List Table)
    → AllNumbered tables
    → AllNumbered (number_tensors bounds tensors sid tid tables)
unfolding number_tensors
number_tensors-AllNumbered [] tensors sid tid tables h = h
number_tensors-AllNumbered (bound ∷ bounds) tensors sid tid [] h = tt
number_tensors-AllNumbered (bound ∷ bounds) [] sid tid (table ∷ tables) h =
    (number_hash-IsNumbering _ table h.0, number_tensors-AllNumbered bounds [] sid tid tables h.1)
number_tensors-AllNumbered (bound ∷ bounds) (t ∷ tensors) sid tid (table ∷ tables) h = (
  number_hash-IsNumbering _ table h.0,
  number_tensors-AllNumbered bounds tensors sid tid tables h.1,
)

get_or-AllBanks :
    (tables : List (List Table)) (bank : ℕ) → AllBanks tables → AllNumbered (get_or tables bank [])
get_or-AllBanks [] bank h = tt
get_or-AllBanks (row ∷ tables) zero h = h.0
get_or-AllBanks (row ∷ tables) (suc bank) h = get_or-AllBanks tables bank h.1

set-AllBanks :
    (tables : List (List Table)) (bank : ℕ) (row : List Table)
    → AllBanks tables
    → AllNumbered row
    → AllBanks (set tables bank row)
set-AllBanks [] bank row h k = tt
set-AllBanks (old ∷ tables) zero row h k = (k, h.1)
set-AllBanks (old ∷ tables) (suc bank) row h k = (h.0, set-AllBanks tables bank row h.1 k)

module _ (bounds : List DataSpaceIdx) (cols_per_bank : ℕ) (single_bank_opt : Bool)
    (tensors : PimTensors) where
  number_elements-AllBanks :
      (rounds sid tid : ℕ) (tables : List (List Table))
      → AllBanks tables
      → AllBanks
          (number_elements bounds cols_per_bank single_bank_opt tensors rounds sid tid tables)
  unfolding number_elements
  number_elements-AllBanks zero sid tid tables h = h
  number_elements-AllBanks (suc rounds) sid tid tables h =
      if-cases AllBanks (single_bank_opt && ltb 0 (sid / cols_per_bank)) _ _ (λ e. h)
        (λ e. number_elements-AllBanks rounds (sid + 1) tid _ (
          set-AllBanks tables (sid / cols_per_bank) _ h (
            number_tensors-AllNumbered bounds tensors sid tid _
              (get_or-AllBanks tables (sid / cols_per_bank) h))))

  number_steps-AllBanks :
      (n rounds tid : ℕ) (tables : List (List Table))
      → AllBanks tables
      → AllBanks (number_steps bounds cols_per_bank single_bank_opt tensors n rounds tid tables)
  unfolding number_steps
  number_steps-AllBanks n zero tid tables h = h
  number_steps-AllBanks n (suc rounds) tid tables h =
      number_steps-AllBanks n rounds (tid + 1) _ (number_elements-AllBanks n 0 tid tables h)

lookup-lt :
    (entries : List (ℕ × ℕ)) (hash k : ℕ)
    → Ordered entries
    → lookup hash entries ≡ some k
    → k < length entries
lookup-lt [] hash k h e = absurd (none≢some e)
lookup-lt ((other, idx) ∷ entries) hash k h e = ground (arith, h.0, lookup-lt entries hash k h.2)

-- Two hashes with one number are one hash.
lookup_injective :
    (entries : List (ℕ × ℕ)) (a b k : ℕ)
    → Ordered entries
    → lookup a entries ≡ some k
    → lookup b entries ≡ some k
    → a ≡ b
lookup_injective [] a b k h e f = absurd (none≢some e)
lookup_injective ((hash, idx) ∷ entries) a b k h e f = ground (
  arith,
  h.0,
  lookup_injective entries a b k h.2,
  lookup-lt entries a k h.2,
  lookup-lt entries b k h.2,
)

abbrev pub table_at : List (List Table) → ℕ → ℕ → Table
table_at tables bank i = get_or (get_or tables bank []) i empty_table

get_or-AllNumbered :
    (tables : List Table) (i : ℕ) → AllNumbered tables → IsNumbering (get_or tables i empty_table)
get_or-AllNumbered [] i h = record { ordered = tt; counted = refl }
get_or-AllNumbered (table ∷ tables) zero h = h.0
get_or-AllNumbered (table ∷ tables) (suc i) h = get_or-AllNumbered tables i h.1

all_empty : (n : ℕ) → AllNumbered (replicate n empty_table)
all_empty zero = tt
all_empty (suc n) = (record { ordered = tt; counted = refl }, all_empty n)

all_banks : (n : ℕ) (row : List Table) → AllNumbered row → AllBanks (replicate n row)
all_banks zero row h = tt
all_banks (suc n) row h = (h, all_banks n row h)

first_tables-AllBanks :
    (spatial_banks n_tensors : ℕ) → AllBanks (first_tables spatial_banks n_tensors)
unfolding first_tables
first_tables-AllBanks spatial_banks n_tensors = all_banks spatial_banks _ (all_empty n_tensors)

-- The tables after the constructor and then the time steps of a list.
unfoldable pub tables_after :
    Plan → SpatialHierarchy → List DataSpaceIdx → List ℕ → List (List Table)
unfolding first_tables infer_layout
tables_after plan h bounds [] = first_tables h.spatial_banks (length plan.projections)
tables_after plan h bounds (t ∷ timesteps) =
    (infer_layout plan h bounds t (tables_after plan h bounds timesteps)).1

tables_after-AllBanks :
    (plan : Plan) (h : SpatialHierarchy) (bounds : List DataSpaceIdx) (timesteps : List ℕ)
    → AllBanks (tables_after plan h bounds timesteps)
unfolding tables_after infer_layout
tables_after-AllBanks plan h bounds [] =
    first_tables-AllBanks h.spatial_banks (length plan.projections)
tables_after-AllBanks plan h bounds (t ∷ timesteps) =
    number_steps-AllBanks bounds (cols_per_bank plan.levels h) plan.single_bank_opt
      (infer_pim_tensors plan h t) (spatial_elems 1 plan.levels)
      (length (get_or (get_or (infer_pim_tensors plan h t) 0 []) 0 [])) 0
      (tables_after plan h bounds timesteps) (tables_after-AllBanks plan h bounds timesteps)

-- After the constructor and any sequence of time steps, in the table of every bank and every tensor: two
-- hashes with one number are the same hash, and every number is below the count of the table.
pub tables_after-lookup_injective :
    (plan : Plan) (h : SpatialHierarchy) (bounds : List DataSpaceIdx) (timesteps : List ℕ)
    (bank i a b k : ℕ)
    → lookup a (table_at (tables_after plan h bounds timesteps) bank i).entries ≡ some k
    → lookup b (table_at (tables_after plan h bounds timesteps) bank i).entries ≡ some k
    → (a ≡ b) × (k < (table_at (tables_after plan h bounds timesteps) bank i).count)
tables_after-lookup_injective plan h bounds timesteps bank i a b k e f =
    let all = tables_after-AllBanks plan h bounds timesteps in
    let numbering : IsNumbering (table_at (tables_after plan h bounds timesteps) bank i) =
      get_or-AllNumbered _ i (get_or-AllBanks _ bank all) in
    (
      lookup_injective _ a b k numbering.ordered e f,
      omega (arith, numbering.counted, lookup-lt _ a k numbering.ordered e),
    )
