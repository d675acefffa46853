-- ===== src/Time/Laws.antt =====
-- src/time.rs: shifting a timestamp stays in range and saturates nowhere that a test can tell.
use pq_ucan.Base.{ℕ, ◌+◌, ◌<◌, ◌≡◌, ◌↔◌, true, ℤ, ◌+ℤ◌, ◌-ℤ◌, pos_part, neg_part, arith, ok}
use pq_ucan.Time.{Timestamp, IsTimestamp, from_unix, plus_seconds, minus_seconds, at, is_past}

-- `from_unix` accepts exactly the integers within 2 ^ 53 - 1 of zero, and returns them unchanged.
pub from_unix_iff : (s : ℤ) (t : Timestamp) → (from_unix s ≡ ok t) ↔ ((s ≡ t) × IsTimestamp s)
unfolding from_unix
from_unix_iff s t = ground arith

pub plus_seconds-IsTimestamp :
    (t : Timestamp) (n : ℕ) → IsTimestamp t → IsTimestamp (plus_seconds t n)
unfolding plus_seconds ◌+ℤ◌
plus_seconds-IsTimestamp t n h = ground arith

pub minus_seconds-IsTimestamp :
    (t : Timestamp) (n : ℕ) → IsTimestamp t → IsTimestamp (minus_seconds t n)
unfolding minus_seconds ◌-ℤ◌
minus_seconds-IsTimestamp t n h = ground arith

-- For a current time in range the saturation of `plus_seconds` cannot be told from plain addition.
pub is_past_iff :
    (t now : Timestamp) (skew : ℕ)
    → IsTimestamp t
    → IsTimestamp now
    → (is_past (at t) now skew ≡ true)
      ↔ (pos_part t + skew + neg_part now < pos_part now + neg_part t)
unfolding is_past plus_seconds ◌+ℤ◌
is_past_iff t now skew ht hn = ground arith
