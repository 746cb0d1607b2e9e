-- ===== src/Codegen/Scheme.antt =====
-- The address scheme of `get_addr_scheme8` in simulator/src/pim_codegen/impl/fimdram.cpp, and the base
-- addresses of the tensors that `codegen_no_duplicate` lays out with it. A mask `x & ((1 << k) - 1)` of
-- a number that is not negative is its remainder by 2 ^ k, and a shift `x >> k` its quotient.
use kvc_pim.Base.{
  ℕ, ◌+◌, ◌-◌, ◌*◌, ◌/◌, ◌%◌, ◌^◌, ◌≤◌, ◌<◌, ◌≡◌, List, [], ◌∷◌, ap, ◌∙◌, arith, zero, suc,
  get_elem?, some, none≢some, some_inj,
}
use native.Mathlib.Nat.{div-lt_iff_lt-mul, div-add-mod', mod-lt, pow-suc}
use mathlib.Core.Path.{ap₂}
use kvc_pim.DataSpace.Hash.{div_digit, mod_digit, digit_bound, Within, get_hash-lt}
use kvc_pim.DataSpace.{DataSpaceIdx, get_hash}

pub record Place : Type 0 where
  pub bank : ℕ
  pub row : ℕ
  pub col : ℕ

-- `col_low` is 2 ^ col_low_bit, and `col_high` is 2 ^ col_high_bit, which is 4.
abbrev pub col_high : ℕ
col_high = 4

unfoldable pub get_addr_scheme8 : ℕ → ℕ → ℕ → ℕ → Place
get_addr_scheme8 col_low_bit addr n_banks bank_offset =
    let col_low = 2 ^ col_low_bit in
    record {
      col = addr % col_low + addr / col_low / n_banks % col_high * col_low;
      bank = addr / col_low % n_banks + bank_offset;
      row = addr / col_low / n_banks / col_high;
    }

-- The address that is read back from a place.
abbrev pub addr_of : ℕ → ℕ → ℕ → Place → ℕ
addr_of col_low_bit n_banks bank_offset p =
    let col_low = 2 ^ col_low_bit in
    ((p.row * col_high + p.col / col_low) * n_banks + (p.bank - bank_offset)) * col_low
    + p.col % col_low

two_pow : (k : ℕ) → 0 < 2 ^ k
two_pow zero = omega arith
two_pow (suc k) = rw pow-suc (omega (arith, two_pow k))

two_pow_more : (k : ℕ) → 2 ^ (k + 2) ≡ 2 ^ k * 2 * 2
two_pow_more k =
    ap (λ j. 2 ^ j) {y = suc (suc k)} (omega arith)
    ∙ pow-suc 2 (suc k)
    ∙ ap (λ m. m * 2) (pow-suc 2 k)

col_digits : (r hi low : ℕ) → r < low → ((r + hi * low) / low ≡ hi) × ((r + hi * low) % low ≡ r)
col_digits r hi low h =
    let e : r + hi * low ≡ hi * low + r = omega arith in
    (ap (λ m. m / low) e ∙ div_digit hi r low h, ap (λ m. m % low) e ∙ mod_digit hi r low h)

-- For a device whose column bits are at least the two high ones, and for at least one bank: every
-- address is read back from its place, so two tensor addresses never share one; the bank is among the
-- banks of the layout, and the column is below the number of columns.
pub addr_of-get_addr_scheme8 :
    (col_low_bit addr n_banks bank_offset : ℕ)
    → 0 < n_banks
    → let p = get_addr_scheme8 col_low_bit addr n_banks bank_offset in
      (addr_of col_low_bit n_banks bank_offset p ≡ addr)
      × (bank_offset ≤ p.bank)
      × (p.bank < bank_offset + n_banks)
      × (p.col < 2 ^ (col_low_bit + 2))
unfolding get_addr_scheme8
addr_of-get_addr_scheme8 k addr n off h =
    let low : ℕ = 2 ^ k in
    let some_low : 0 < low = two_pow k in
    let q : ℕ = addr / low in
    let hi : ℕ = q / n % col_high in
    let col_parts = col_digits (addr % low) hi low (mod-lt addr some_low) in
    let banks : q % n < n = mod-lt q h in
    (
      ap₂ (λ c r. ((q / n / col_high * col_high + c) * n + (q % n + off - off)) * low + r)
            col_parts.0 col_parts.1
          ∙ ap (λ m. (m * n + (q % n + off - off)) * low + addr % low)
              (div-add-mod' (q / n) col_high)
          ∙ ap (λ b. (q / n * n + b) * low + addr % low) {y = q % n} (omega arith)
          ∙ ap (λ m. m * low + addr % low) (div-add-mod' q n)
          ∙ div-add-mod' addr low,
      omega arith,
      omega arith,
      omega (
        arith,
        two_pow_more k,
        digit_bound hi (addr % low) col_high low (mod-lt (q / n) (omega arith))
            (mod-lt addr some_low),
      ),
    )

-- `tensor_base_addr`: the tensors one after the other, from `cur` on.
unfoldable pub tensor_base_addr : ℕ → List DataSpaceIdx → ℕ → List ℕ
unfolding get_hash
tensor_base_addr n_values_per_dq [] cur = []
tensor_base_addr n_values_per_dq (bound ∷ bounds) cur =
    cur ∷ tensor_base_addr n_values_per_dq bounds (cur + get_hash bound bound / n_values_per_dq)

size_parts : (b c h w : ℕ) → ((b * c + c) * h + h) * w + w ≡ b * c * h * w + ((c * h + h) * w + w)
size_parts b c h w = omega arith

below_size : (hash size v : ℕ) → 0 < v → hash + v ≤ size → hash / v < size / v
below_size hash size v some_v h =
    (div-lt_iff_lt-mul some_v).1 (omega (arith, div-add-mod' size v, mod-lt size some_v))

-- In `codegen_no_duplicate` the addresses of a tensor's elements lie between its own base address and
-- that of the next tensor, for elements within the bounds, where an access holds no more values than a
-- channel, a row and a line of the tensor together.
pub tensor_base_addr-lt :
    (v : ℕ) (bounds : List DataSpaceIdx) (cur i addr next : ℕ) (bound idx : DataSpaceIdx)
    → 0 < v
    → v ≤ (bound.channel * bound.height + bound.height) * bound.width + bound.width
    → Within bound idx
    → get_elem? bounds i ≡ some bound
    → get_elem? (tensor_base_addr v bounds cur) i ≡ some addr
    → get_elem? (tensor_base_addr v bounds cur) (suc i) ≡ some next
    → addr + get_hash idx bound / v < next
unfolding tensor_base_addr
tensor_base_addr-lt v [] cur i addr next bound idx some_v small w e a n = absurd (none≢some e)
tensor_base_addr-lt v (b ∷ []) cur zero addr next bound idx some_v small w e a n =
    absurd (none≢some n)
tensor_base_addr-lt v (b ∷ c ∷ bounds) cur zero addr next bound idx some_v small w e a n =
    let lt = below_size (get_hash idx bound) (get_hash bound bound) v some_v (
      omega (
        arith,
        get_hash-lt idx bound w,
        size_parts bound.batch bound.channel bound.height bound.width,
      )) in
    omega (arith, lt, some_inj a, some_inj n, ap (λ d. get_hash d d / v) (some_inj e))
tensor_base_addr-lt v (b ∷ bounds) cur (suc i) addr next bound idx some_v small w e a n =
    tensor_base_addr-lt v bounds (cur + get_hash b b / v) i addr next bound idx some_v small w e a n
