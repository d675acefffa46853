-- ===== src/Time.antt =====
-- src/time.rs: timestamps with the 53-bit bound, and expiries. An i64 is an integer within the
-- range of i64; a u32 is a number below 2 ^ 32.
pub mod Laws
pub mod Window
use pq_ucan.Base.{
  ℕ, suc, ◌-◌, ◌^◌, ◌≤◌, Bool, true, false, ◌&&◌, if◌then◌else◌, ℤ, pos, negsuc, ◌+ℤ◌, ◌-ℤ◌, ◌≤ℤ◌,
  ltb_ℤ, leb_ℤ, min_ℤ, max_ℤ, Result, ok, err,
}

abbrev pub i64_max : ℤ
i64_max = pos (2 ^ 63 - 1)

abbrev pub i64_min : ℤ
i64_min = negsuc (2 ^ 63 - 1)

-- `i64::saturating_add` and `i64::saturating_sub`.
unfoldable pub saturating_add : ℤ → ℤ → ℤ
unfolding ◌+ℤ◌ min_ℤ max_ℤ
saturating_add a b = max_ℤ i64_min (min_ℤ i64_max (a +ℤ b))

unfoldable pub saturating_sub : ℤ → ℤ → ℤ
unfolding ◌-ℤ◌ min_ℤ max_ℤ
saturating_sub a b = max_ℤ i64_min (min_ℤ i64_max (a -ℤ b))

-- `Timestamp(i64)`.
abbrev pub Timestamp : Type 0
Timestamp = ℤ

abbrev pub max_timestamp : Timestamp
max_timestamp = pos (2 ^ 53 - 1)

abbrev pub min_timestamp : Timestamp
min_timestamp = negsuc (2 ^ 53 - 2)

pub data TimeError : Type 0 where
  out_of_range : TimeError

unfoldable pub from_unix : ℤ → Result TimeError Timestamp
from_unix seconds =
    if leb_ℤ min_timestamp seconds && leb_ℤ seconds max_timestamp
    then ok seconds
    else err out_of_range

unfoldable pub plus_seconds : Timestamp → ℕ → Timestamp
unfolding saturating_add min_ℤ
plus_seconds t seconds = min_ℤ (saturating_add t (pos seconds)) max_timestamp

unfoldable pub minus_seconds : Timestamp → ℕ → Timestamp
unfolding saturating_sub max_ℤ
minus_seconds t seconds = max_ℤ (saturating_sub t (pos seconds)) min_timestamp

pub data Expiry : Type 0 where
  at : Timestamp → Expiry
  never : Expiry

unfoldable pub is_past : Expiry → Timestamp → ℕ → Bool
unfolding plus_seconds
is_past (at t) now skew = ltb_ℤ (plus_seconds t skew) now
is_past never now skew = false

-- What every `Timestamp` of the program satisfies.
abbrev pub IsTimestamp : Timestamp → Type 0
IsTimestamp t = (min_timestamp ≤ℤ t) × (t ≤ℤ max_timestamp)
