-- ===== src/DataSpace/Hash.antt =====
-- `get_hash` and `data_space_from_hash` of simulator/src/pim_codegen/data_space.h are inverse.
use kvc_pim.Base.{ℕ, ◌+◌, ◌*◌, ◌/◌, ◌%◌, ◌^◌, ◌≤◌, ◌<◌, ◌≡◌, sym, ap, ◌∙◌, ◌↔◌, true, arith}
use native.Mathlib.Nat.{
  mul-add-mod_self_right, mul-add-div_right, div-eq_of_lt, mod-eq_of_lt, div-add-mod', add-zero,
}
use kvc_pim.DataSpace.{DataSpaceIdx, data_space_from_hash, get_hash, same_idx}

-- The index lies within the bounds.
pub record Within (bounds idx : DataSpaceIdx) : Type 0 where
  pub batch_in : idx.batch < bounds.batch
  pub channel_in : idx.channel < bounds.channel
  pub height_in : idx.height < bounds.height
  pub width_in : idx.width < bounds.width

pub mod_digit : (q r w : ℕ) → r < w → (q * w + r) % w ≡ r
mod_digit q r w h = mul-add-mod_self_right q w r ∙ mod-eq_of_lt h

pub div_digit : (q r w : ℕ) → r < w → (q * w + r) / w ≡ q
div_digit q r w h =
    mul-add-div_right {m = w} (omega arith) q r ∙ ap (λ k. q + k) (div-eq_of_lt h) ∙ add-zero q

-- An index whose channel, height and width lie within the bounds is read back from its hash, whatever
-- its batch is.
pub from_hash-get_hash :
    (idx bounds : DataSpaceIdx)
    → idx.channel < bounds.channel
    → idx.height < bounds.height
    → idx.width < bounds.width
    → data_space_from_hash (get_hash idx bounds) bounds ≡ idx
unfolding data_space_from_hash get_hash
from_hash-get_hash idx bounds c h w = ground (
  arith,
  mod_digit ((idx.batch * bounds.channel + idx.channel) * bounds.height + idx.height) idx.width
      bounds.width w,
  div_digit ((idx.batch * bounds.channel + idx.channel) * bounds.height + idx.height) idx.width
      bounds.width w,
  mod_digit (idx.batch * bounds.channel + idx.channel) idx.height bounds.height h,
  div_digit (idx.batch * bounds.channel + idx.channel) idx.height bounds.height h,
  mod_digit idx.batch idx.channel bounds.channel c,
  div_digit idx.batch idx.channel bounds.channel c,
)

-- Every number is the hash of the index that is read from it.
pub get_hash-from_hash :
    (hash : ℕ) (bounds : DataSpaceIdx) → get_hash (data_space_from_hash hash bounds) bounds ≡ hash
unfolding data_space_from_hash get_hash
get_hash-from_hash hash bounds = rw (
  div-add-mod' (hash / bounds.width / bounds.height) bounds.channel,
  div-add-mod' (hash / bounds.width) bounds.height,
  div-add-mod' hash bounds.width,
)

pub digit_bound : (q r n w : ℕ) → q < n → r < w → q * w + r < n * w
digit_bound q r n w p h = grind arith

-- The hash of an index within the bounds is below their product; so where that product is at most
-- 2 ^ 31, `get_hash` does not overflow an `int`.
pub get_hash-lt :
    (idx bounds : DataSpaceIdx)
    → Within bounds idx
    → get_hash idx bounds < bounds.batch * bounds.channel * bounds.height * bounds.width
unfolding get_hash
get_hash-lt idx bounds v =
    digit_bound _ _ _ _
      (digit_bound _ _ _ _ (digit_bound _ _ _ _ v.batch_in v.channel_in) v.height_in) v.width_in

le_times : (a n : ℕ) → 0 < n → a ≤ a * n
le_times a n h = grind arith

-- The values that `get_hash` computes one after the other, each of which is an `int`.
pub record NoOverflow (idx bounds : DataSpaceIdx) : Type 0 where
  pub first : idx.batch * bounds.channel + idx.channel < 2 ^ 31
  pub second : (idx.batch * bounds.channel + idx.channel) * bounds.height + idx.height < 2 ^ 31
  pub hash : get_hash idx bounds < 2 ^ 31

get_hash-NoOverflow :
    (idx bounds : DataSpaceIdx)
    → Within bounds idx
    → bounds.batch * bounds.channel * bounds.height * bounds.width ≤ 2 ^ 31
    → NoOverflow idx bounds
get_hash-NoOverflow idx bounds v fits =
    let one : idx.batch * bounds.channel + idx.channel < bounds.batch * bounds.channel =
      digit_bound _ _ _ _ v.batch_in v.channel_in in
    let two : (idx.batch * bounds.channel + idx.channel) * bounds.height + idx.height
        < bounds.batch * bounds.channel * bounds.height =
      digit_bound _ _ _ _ one v.height_in in
    let taller =
      le_times (bounds.batch * bounds.channel) bounds.height (omega (arith, v.height_in)) in
    let wider =
      le_times (bounds.batch * bounds.channel * bounds.height) bounds.width
        (omega (arith, v.width_in)) in
    record {
      first = omega (arith, one, taller, wider, fits);
      second = omega (arith, two, wider, fits);
      hash = omega (arith, get_hash-lt idx bounds v, fits);
    }

-- Where the product of the bounds is at most 2 ^ 31: no value that `get_hash` computes for an index
-- within the bounds overflows an `int`, two indices within the bounds have the same hash exactly when
-- they are equal, and `operator==` decides that.
pub get_hash-injective :
    (a b bounds : DataSpaceIdx)
    → Within bounds a
    → Within bounds b
    → bounds.batch * bounds.channel * bounds.height * bounds.width ≤ 2 ^ 31
    → (NoOverflow a bounds × NoOverflow b bounds)
      × ((get_hash a bounds ≡ get_hash b bounds) ↔ (a ≡ b))
      × ((same_idx a b ≡ true) ↔ (a ≡ b))
unfolding same_idx
get_hash-injective a b bounds v w fits = (
  (get_hash-NoOverflow a bounds v fits, get_hash-NoOverflow b bounds w fits),
  (
    λ e.
        sym (from_hash-get_hash a bounds v.channel_in v.height_in v.width_in)
        ∙ ap (λ k. data_space_from_hash k bounds) e
        ∙ from_hash-get_hash b bounds w.channel_in w.height_in w.width_in,
    λ e. ap (λ i. get_hash i bounds) e,
  ),
  ground arith,
)
