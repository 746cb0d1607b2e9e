-- ===== src/WeightLoader.antt =====
-- `StaticWeightLoader` of simulator/src/pim_codegen/static_weight_loader.h. The file is the list of its
-- lines, a line the list of its words; a file that does not open is the empty list.
pub mod Extracted
use kvc_pim.Base.{
  ℕ, get_elem?, if◌then◌else◌, ltb, ℤ, Bool, Option, none, some, List, [], ◌∷◌, pos, negsuc,
}
use kvc_pim.Policy.Weights.{WeightMap}
use kvc_pim.Frontend.Weights.{insert_weight}

-- The strings, with `token == "W" || token == "R"`, the split at commas, and `std::stoi` and
-- `std::stoull`, which are `none` where they throw.
pub record Strings : Type 1 where
  pub Str : Type 0
  pub is_access : Str → Bool
  pub split_commas : Str → List Str
  pub stoi : Str → Option ℤ
  pub stoull : Str → Option ℕ

module _ (strings : Strings) where
  open strings use {Str, is_access, split_commas, stoi, stoull}

  -- The raw address: the segment at index 4, or 0 if there is none.
  unfoldable pub raw_addr_of : List Str → Option ℕ
  raw_addr_of segments = elim (get_elem? segments 4) [ none ↦ some 0 | some s ↦ stoull s ]

  -- The bank, if it is within the banks, with the raw address.
  unfoldable pub in_banks : ℕ → Option ℤ → Option ℕ → Option (ℕ × ℕ)
  in_banks num_banks (some (pos bank)) (some raw) =
      if ltb bank num_banks then some (bank, raw) else none
  in_banks num_banks (some (pos bank)) none = none
  in_banks num_banks (some (negsuc bank)) raw = none
  in_banks num_banks none raw = none

  -- The segments of an address: the bank is at index 1.
  unfoldable pub parse_segments : ℕ → List Str → Option (ℕ × ℕ)
  unfolding raw_addr_of in_banks
  parse_segments num_banks segments = elim (get_elem? segments 1) [
    | none ↦ none
    | some s ↦ in_banks num_banks (stoi s) (raw_addr_of segments)
  ]

  -- The bank and the raw address of a line, if it is an access that parses.
  unfoldable pub parse_line : ℕ → List Str → Option (ℕ × ℕ)
  unfolding parse_segments
  parse_line num_banks [] = none
  parse_line num_banks (token ∷ []) = none
  parse_line num_banks (token ∷ addr_str ∷ words) =
      if is_access token then parse_segments num_banks (split_commas addr_str) else none

  abbrev pub store_parsed : Option (ℕ × ℕ) → WeightMap → WeightMap
  store_parsed none m = m
  store_parsed (some (bank, raw)) m = insert_weight bank raw m

  unfoldable pub extract_lines : ℕ → List (List Str) → WeightMap → WeightMap
  unfolding parse_line
  extract_lines num_banks [] m = m
  extract_lines num_banks (line ∷ lines) m =
      extract_lines num_banks lines (store_parsed (parse_line num_banks line) m)

  unfoldable pub extract_weight_banks : ℕ → List (List Str) → WeightMap
  unfolding extract_lines
  extract_weight_banks num_banks lines = extract_lines num_banks lines []
