-- ===== src/Float.antt =====
-- `f64` as its 64 bits: sign, 11 bits of exponent, 52 bits of mantissa. The operations are those of
-- the language that src/policy/mod.rs and src/codec call.
use pq_ucan.Base.{
  ℕ, zero, suc, ◌+◌, ◌-◌, ◌*◌, ◌/◌, ◌%◌, ◌^◌, Bool, true, false, not, ◌&&◌, ◌||◌, ltb, leb, ◌==◌,
  if◌then◌else◌, ℤ, pos, negsuc, Option, none, some, compare_ℤ, Ordering, min_ℤ, max_ℤ,
}

abbrev pub exponent : ℕ → ℕ
exponent f = f / 2 ^ 52 % 2048

abbrev pub mantissa : ℕ → ℕ
mantissa f = f % 2 ^ 52

abbrev pub is_sign_negative : ℕ → Bool
is_sign_negative f = leb (2 ^ 63) f

unfoldable pub is_finite : ℕ → Bool
is_finite f = not (exponent f == 2047)

unfoldable pub is_nan : ℕ → Bool
is_nan f = exponent f == 2047 && not (mantissa f == 0)

abbrev pub signed : Bool → ℕ → ℤ
signed false n = pos n
signed true zero = pos 0
signed true (suc n) = negsuc n

-- The bits below the sign order the magnitudes, and the two zeros are one.
abbrev pub order_key : ℕ → ℤ
order_key f = signed (is_sign_negative f) (f % 2 ^ 63)

-- `PartialOrd::partial_cmp`.
unfoldable pub partial_cmp : ℕ → ℕ → Option Ordering
unfolding is_nan
partial_cmp a b =
    if is_nan a || is_nan b then none else some (compare_ℤ (order_key a) (order_key b))

-- `a < b`.
unfoldable pub lt : ℕ → ℕ → Bool
unfolding partial_cmp
lt a b = elim (partial_cmp a b) [ some Ordering.lt ↦ true | _ ↦ false ]

-- `a == b`.
unfoldable pub eq : ℕ → ℕ → Bool
unfolding partial_cmp
eq a b = elim (partial_cmp a b) [ some Ordering.eq ↦ true | _ ↦ false ]

abbrev pub i128_max : ℤ
i128_max = pos (2 ^ 127 - 1)

abbrev pub i128_min : ℤ
i128_min = negsuc (2 ^ 127 - 1)

-- The magnitude of a finite float without its fraction: a float with exponent `e` is its significand
-- times 2 ^ (e - 1075).
abbrev pub truncated_magnitude : ℕ → ℕ → ℕ
truncated_magnitude e m =
    if e == 0
    then m / 2 ^ 1074
    else if leb 1075 e
    then (m + 2 ^ 52) * 2 ^ (e - 1075)
    else (m + 2 ^ 52) / 2 ^ (1075 - e)

-- `f as i128`: towards zero, saturating, NaN to 0.
unfoldable pub to_i128 : ℕ → ℤ
unfolding is_nan min_ℤ max_ℤ
to_i128 f =
    if is_nan f
    then pos 0
    else max_ℤ i128_min (
        min_ℤ i128_max
          (signed (is_sign_negative f) (truncated_magnitude (exponent f) (mantissa f))))

-- The number of binary digits, for a number below 2 ^ fuel.
unfoldable pub bit_length : ℕ → ℕ → ℕ
bit_length zero n = 0
bit_length (suc fuel) n = let rest = bit_length fuel (n / 2) in if n == 0 then 0 else suc rest

-- A quotient rounded to the nearest number, ties to even.
abbrev pub round_even : ℕ → ℕ → ℕ
round_even n d =
    let q = n / d in let r = n % d in if ltb d (2 * r) || 2 * r == d && q % 2 == 1 then q + 1 else q

-- The bits of a magnitude of `len` binary digits. A carry out of the mantissa moves the exponent on.
abbrev pub magnitude_bits : ℕ → ℕ → ℕ
magnitude_bits n len =
    if n == 0
    then 0
    else if leb len 53
    then (len + 1022) * 2 ^ 52 + (n * 2 ^ (53 - len) - 2 ^ 52)
    else (len + 1022) * 2 ^ 52 + (round_even n (2 ^ (len - 53)) - 2 ^ 52)

-- `i as f64`, for an `i128`.
unfoldable pub from_i128 : ℤ → ℕ
unfolding bit_length
from_i128 (pos n) = magnitude_bits n (bit_length 128 n)
from_i128 (negsuc n) = 2 ^ 63 + magnitude_bits (suc n) (bit_length 128 (suc n))

-- 1.0e38 and -1.0e38.
abbrev pub ten_to_38 : ℕ
ten_to_38 = 5175426328141668785

abbrev pub minus_ten_to_38 : ℕ
minus_ten_to_38 = 2 ^ 63 + ten_to_38
