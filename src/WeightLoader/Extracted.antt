-- ===== src/WeightLoader/Extracted.antt =====
-- The banks that `extract_weight_banks` of simulator/src/pim_codegen/static_weight_loader.h finds.
use kvc_pim.Base.{
  ℕ, ℤ, negsuc, ◌==◌, ◌<◌, ◌≡◌, refl, sym, ap, subst, ◌∙◌, ◌↔◌, ◌⊎◌, zero, suc, inl, inr, get_elem?,
  Option-cases, Bool-cases, true≢false, none≢some, some_inj, ltb, Bool, true, false, ◌||◌, Option,
  none, some, List, [], ◌∷◌, arith, pos,
}
use kvc_pim.Policy.Weights.{WeightMap, has_weights}
use kvc_pim.Frontend.Weights.Detected.{has_weights-insert_weight}
use kvc_pim.WeightLoader.{
  Strings, raw_addr_of, in_banks, parse_segments, parse_line, store_parsed, extract_lines,
  extract_weight_banks,
}

-- What a line is parsed to is on the bank.
abbrev pub on_bank : ℕ → Option (ℕ × ℕ) → Bool
on_bank b none = false
on_bank b (some (bank, raw)) = b == bank

regroup : (a l m d : Bool) → d ≡ (a || m) → (l || d) ≡ ((a || l) || m)
regroup a l m d h = ground arith

module _ (strings : Strings) (num_banks : ℕ) where
  abbrev pub any_line_on : ℕ → List (List strings.Str) → Bool
  any_line_on b [] = false
  any_line_on b (line ∷ lines) =
      on_bank b (parse_line strings num_banks line) || any_line_on b lines

  has_weights-store_parsed :
      (b : ℕ) (o : Option (ℕ × ℕ)) (m : WeightMap)
      → has_weights (pos b) (store_parsed strings o m) ≡ (on_bank b o || has_weights (pos b) m)
  has_weights-store_parsed b none m = refl
  has_weights-store_parsed b (some (bank, raw)) m = has_weights-insert_weight bank raw b m

  has_weights-extract_lines :
      (b : ℕ) (lines : List (List strings.Str)) (m : WeightMap)
      → has_weights (pos b) (extract_lines strings num_banks lines m)
        ≡ (any_line_on b lines || has_weights (pos b) m)
  unfolding extract_lines
  has_weights-extract_lines b [] m = refl
  has_weights-extract_lines b (line ∷ lines) m =
      has_weights-extract_lines b lines (store_parsed strings (parse_line strings num_banks line) m)
      ∙ regroup (on_bank b (parse_line strings num_banks line)) (any_line_on b lines)
          (has_weights (pos b) m) _
          (has_weights-store_parsed b (parse_line strings num_banks line) m)

  map_lines :
      (b : ℕ) (lines : List (List strings.Str))
      → has_weights (pos b) (extract_weight_banks strings num_banks lines) ≡ any_line_on b lines
  unfolding extract_weight_banks has_weights
  map_lines b lines = has_weights-extract_lines b lines [] ∙ ground arith

  -- The line is an access to the bank that parses: its first word is "R" or "W"; the part at index 1 of
  -- its second word is the number of the bank, which is within the banks; and the part at index 4, if
  -- there is one, is a number.
  pub record AccessTo (b : ℕ) (line : List strings.Str) : Type 0 where
    pub token : strings.Str
    pub addr_str : strings.Str
    pub words : List strings.Str
    pub is_line : line ≡ token ∷ addr_str ∷ words
    pub access : strings.is_access token ≡ true
    pub second : strings.Str
    pub at_one : get_elem? (strings.split_commas addr_str) 1 ≡ some second
    pub bank : strings.stoi second ≡ some (pos b)
    pub within : b < num_banks
    pub raw :
        (get_elem? (strings.split_commas addr_str) 4 ≡ none)
        ⊎ ((fourth : strings.Str) × (n : ℕ) × (get_elem? (strings.split_commas addr_str) 4
              ≡ some fourth)
            × (strings.stoull fourth ≡ some n))

  raw_at :
      (segments : List strings.Str) (s : strings.Str)
      → get_elem? segments 4 ≡ some s
      → raw_addr_of strings segments ≡ strings.stoull s
  unfolding raw_addr_of
  raw_at segments s e = rw (e, raw_addr_of) refl

  raw_missing :
      (segments : List strings.Str)
      → get_elem? segments 4 ≡ none
      → raw_addr_of strings segments ≡ some 0
  unfolding raw_addr_of
  raw_missing segments e = rw (e, raw_addr_of) refl

  access_at :
      (token addr_str : strings.Str) (words : List strings.Str)
      → strings.is_access token ≡ true
      → parse_line strings num_banks (token ∷ addr_str ∷ words)
        ≡ parse_segments strings num_banks (strings.split_commas addr_str)
  unfolding parse_line
  access_at token addr_str words e = rw (e, parse_line) refl

  other_line :
      (token addr_str : strings.Str) (words : List strings.Str)
      → strings.is_access token ≡ false
      → parse_line strings num_banks (token ∷ addr_str ∷ words) ≡ none
  unfolding parse_line
  other_line token addr_str words e = rw (e, parse_line) refl

  second_at :
      (segments : List strings.Str) (s : strings.Str)
      → get_elem? segments 1 ≡ some s
      → parse_segments strings num_banks segments
        ≡ in_banks strings num_banks (strings.stoi s) (raw_addr_of strings segments)
  unfolding parse_segments
  second_at segments s e = rw (e, parse_segments) refl

  second_missing :
      (segments : List strings.Str)
      → get_elem? segments 1 ≡ none
      → parse_segments strings num_banks segments ≡ none
  unfolding parse_segments
  second_missing segments e = rw (e, parse_segments) refl

  in_range :
      (bank raw : ℕ)
      → ltb bank num_banks ≡ true
      → in_banks strings num_banks (some (pos bank)) (some raw) ≡ some (bank, raw)
  unfolding in_banks
  in_range bank raw e = rw e refl

  out_of_range :
      (bank raw : ℕ)
      → ltb bank num_banks ≡ false
      → in_banks strings num_banks (some (pos bank)) (some raw) ≡ none
  unfolding in_banks
  out_of_range bank raw e = rw e refl

  -- What the numbers are where the line is on the bank.
  on_bank-in_banks :
      (b : ℕ) (bank : Option ℤ) (raw : Option ℕ)
      → on_bank b (in_banks strings num_banks bank raw) ≡ true
      → (bank ≡ some (pos b)) × (b < num_banks) × (n : ℕ) × (raw ≡ some n)
  unfolding in_banks
  on_bank-in_banks b (some (pos bank)) (some raw) h = elim (Bool-cases (ltb bank num_banks)) [
    | inl y ↦
        let e : (b == bank) ≡ true = sym (ap (on_bank b) (in_range bank raw y)) ∙ h in
        let same : bank ≡ b = ground (arith, e) in
        (ap (λ n. some (pos n)) same, ground (arith, same, y), raw, refl)
    | inr y ↦ absurd (true≢false (sym h ∙ ap (on_bank b) (out_of_range bank raw y)))
  ]
  on_bank-in_banks b (some (pos bank)) none h = absurd (true≢false (sym h))
  on_bank-in_banks b (some (negsuc bank)) raw h = absurd (true≢false (sym h))
  on_bank-in_banks b none raw h = absurd (true≢false (sym h))

  raw_parts :
      (segments : List strings.Str) (n : ℕ)
      → raw_addr_of strings segments ≡ some n
      → (get_elem? segments 4 ≡ none)
        ⊎ ((fourth : strings.Str) × (n : ℕ) × (get_elem? segments 4 ≡ some fourth)
            × (strings.stoull fourth ≡ some n))
  raw_parts segments n h = elim (Option-cases (get_elem? segments 4)) [
    | inl e ↦ inl e
    | inr p ↦ inr (p.0, n, p.1, sym (raw_at segments p.0 p.1) ∙ h)
  ]

  raw_known :
      (segments : List strings.Str)
      → (get_elem? segments 4 ≡ none)
        ⊎ ((fourth : strings.Str) × (n : ℕ) × (get_elem? segments 4 ≡ some fourth)
            × (strings.stoull fourth ≡ some n))
      → (n : ℕ) × (raw_addr_of strings segments ≡ some n)
  raw_known segments (inl e) = (0, raw_missing segments e)
  raw_known segments (inr q) = (q.1, raw_at segments q.0 q.2 ∙ q.3)

  same_bank : (b : ℕ) → (b == b) ≡ true
  same_bank b = ground arith

  below : (b : ℕ) → b < num_banks → ltb b num_banks ≡ true
  below b h = ground (arith, h)

  on_bank-AccessTo :
      (b : ℕ) (line : List strings.Str)
      → AccessTo b line
      → on_bank b (parse_line strings num_banks line) ≡ true
  on_bank-AccessTo b line a =
      let segments = strings.split_commas a.addr_str in
      let n = raw_known segments a.raw in
      ap (on_bank b) (
        ap (parse_line strings num_banks) a.is_line
        ∙ access_at a.token a.addr_str a.words a.access
        ∙ second_at segments a.second a.at_one
        ∙ ap (λ k. in_banks strings num_banks k (raw_addr_of strings segments)) a.bank
        ∙ ap (in_banks strings num_banks (some (pos b))) n.1
        ∙ in_range b n.0 (below b a.within))
      ∙ same_bank b

  AccessTo-on_bank :
      (b : ℕ) (line : List strings.Str)
      → on_bank b (parse_line strings num_banks line) ≡ true
      → AccessTo b line
  unfolding parse_line
  AccessTo-on_bank b [] h = absurd (true≢false (sym h))
  AccessTo-on_bank b (token ∷ []) h = absurd (true≢false (sym h))
  AccessTo-on_bank b (token ∷ addr_str ∷ words) h =
      let segments = strings.split_commas addr_str in
      elim (Bool-cases (strings.is_access token)) [
        | inr n ↦ absurd (true≢false (sym h ∙ ap (on_bank b) (other_line token addr_str words n)))
        | inl y ↦
            let e = sym (ap (on_bank b) (access_at token addr_str words y)) ∙ h in
            elim (Option-cases (get_elem? segments 1)) [
              | inl m ↦ absurd (true≢false (sym e ∙ ap (on_bank b) (second_missing segments m)))
              | inr p ↦
                  let q =
                    on_bank-in_banks b (strings.stoi p.0) (raw_addr_of strings segments)
                      (sym (ap (on_bank b) (second_at segments p.0 p.1)) ∙ e) in
                  record {
                    token = token;
                    addr_str = addr_str;
                    words = words;
                    is_line = refl;
                    access = y;
                    second = p.0;
                    at_one = p.1;
                    bank = q.0;
                    within = q.1;
                    raw = raw_parts segments q.2 q.3;
                  }
            ]
      ]

  either : (a m : Bool) → (a || m) ≡ true → (a ≡ true) ⊎ (m ≡ true)
  either a m h = ground arith

  find_line :
      (b : ℕ) (lines : List (List strings.Str))
      → any_line_on b lines ≡ true
      → (i : ℕ) × (line : List strings.Str) × (get_elem? lines i ≡ some line) × AccessTo b line
  find_line b [] h = absurd (true≢false (sym h))
  find_line b (line ∷ lines) h =
      elim (either (on_bank b (parse_line strings num_banks line)) (any_line_on b lines) h) [
        | inl y ↦ (0, line, refl, AccessTo-on_bank b line y)
        | inr y ↦ let f = find_line b lines y in (suc f.0, f.1, f.2, f.3)
      ]

  line_found :
      (b : ℕ) (lines : List (List strings.Str)) (i : ℕ) (line : List strings.Str)
      → get_elem? lines i ≡ some line
      → AccessTo b line
      → any_line_on b lines ≡ true
  line_found b [] i line e a = absurd (none≢some e)
  line_found b (first ∷ lines) zero line e a =
      let y = on_bank-AccessTo b first (subst (AccessTo b) (sym (some_inj e)) a) in rw y refl
  line_found b (first ∷ lines) (suc i) line e a =
      let y = line_found b lines i line e a in ground (arith, y)

  -- A bank has weights in the map exactly if some line of the file is an access to it that parses: its
  -- first word is "R" or "W", the part at index 1 of its second word is the number of the bank, which is
  -- within the banks, and the part at index 4, if there is one, is a number.
  pub has_weights-extract_weight_banks :
      (b : ℕ) (lines : List (List strings.Str))
      → (has_weights (pos b) (extract_weight_banks strings num_banks lines) ≡ true)
        ↔ ((i : ℕ) × (line : List strings.Str) × (get_elem? lines i ≡ some line) × AccessTo b line)
  has_weights-extract_weight_banks b lines = (
    (λ h. find_line b lines (sym (map_lines b lines) ∙ h)),
    (λ f. map_lines b lines ∙ line_found b lines f.0 f.1 f.2 f.3),
  )
