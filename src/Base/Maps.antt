-- ===== src/Base/Maps.antt =====
-- `std::map` and `std::unordered_set`. A map that is only looked up is a function; one that is
-- walked is a list of entries with distinct keys.
use Prim.Native.Nat.{ℕ}
use mathlib.Core.Path.{◌≡◌, refl}
use mathlib.Core.Logic.{◌↔◌, ◌≢◌}
use mathlib.Core.Bool.{Bool, true, false, ◌||◌}
use mathlib.Core.List.{List, [], ◌∷◌}
use mathlib.Core.Option.{Option, none, some}
use native.Mathlib.Omega.{arith}
use kvc_pim.Base.Tests.{◌==◌, ==_iff, if◌then◌else◌}
use kvc_pim.Base.Int.{ℤ, pos, negsuc}

-- Keys with a decided equality.
pub record Key (K : Type 0) : Type 0 where
  pub same : K → K → Bool
  pub same_iff : (a b : K) → (same a b ≡ true) ↔ (a ≡ b)

abbrev pub same_ℤ : ℤ → ℤ → Bool
same_ℤ (pos a) (pos b) = a == b
same_ℤ (negsuc a) (negsuc b) = a == b
same_ℤ (pos a) (negsuc b) = false
same_ℤ (negsuc a) (pos b) = false

pub same_ℤ_iff : (a b : ℤ) → (same_ℤ a b ≡ true) ↔ (a ≡ b)
same_ℤ_iff a b = ground arith

instance abbrev pub nat_key : Key ℕ
nat_key = record { same = λ a b. a == b; same_iff = ==_iff }

instance abbrev pub int_key : Key ℤ
int_key = record { same = same_ℤ; same_iff = same_ℤ_iff }

abbrev pub Map : Type 0 → Type 0 → Type 0
Map K V = K → Option V

abbrev pub empty_map : {K V : Type 0} → Map K V
empty_map k = none

-- `m[k] = v`
abbrev pub insert : {K V : Type 0} ⦃e : Key K⦄ → K → V → Map K V → Map K V
insert ⦃e⦄ k v m j = if e.same k j then some v else m j

-- `m[k]`, which enters an empty value for a key that is missing.
abbrev pub at_or : {K V : Type 0} → K → V → Map K V → V
at_or k d m = elim (m k) [ none ↦ d | some v ↦ v ]

-- The entries of a map that is walked, and its `find`.
abbrev pub lookup : {K V : Type 0} ⦃e : Key K⦄ → K → List (K × V) → Option V
lookup k [] = none
lookup ⦃e⦄ k ((j, v) ∷ m) = if e.same j k then some v else lookup k m

-- `std::unordered_set<uint64_t>`, as a list without repetitions.
abbrev pub contains : ℕ → List ℕ → Bool
contains a [] = false
contains a (x ∷ xs) = (x == a) || contains a xs

abbrev pub set_insert : ℕ → List ℕ → List ℕ
set_insert a xs = if contains a xs then xs else a ∷ xs

abbrev pub is_empty {ℓ} : {A : Type ℓ} → List A → Bool
is_empty [] = true
is_empty (x ∷ xs) = false

module _ {K V : Type 0} ⦃e : Key K⦄ where
  pub insert_self : (k : K) (v : V) (m : Map K V) → insert k v m k ≡ some v
  insert_self k v m = rw ((e.same_iff k k).1 refl)

  pub insert_ne : (k j : K) (v : V) (m : Map K V) → j ≢ k → insert k v m j ≡ m j
  insert_ne k j v m h = ground (arith, e.same_iff k j)
