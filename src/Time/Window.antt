-- ===== src/Time/Window.antt =====
-- src/time.rs: the validity window of a token.
use pq_ucan.Base.{
  ℕ, ◌+◌, ◌≤◌, ◌≡◌, ◌↔◌, false, if◌then◌else◌, ltb_ℤ, Option, none, some, pos_part, neg_part,
  Result, ok, err, arith,
}
use pq_ucan.Error.{Error}
use pq_ucan.Time.{Timestamp, IsTimestamp, Expiry, at, never, is_past, minus_seconds}
use pq_ucan.Base.{Bool-cases, inl, inr, ◌+ℤ◌, ◌-ℤ◌}

-- The two tests of `check_window`.
abbrev pub check_expiry : Expiry → Timestamp → ℕ → Result Error (Unit {0})
check_expiry never now skew = ok tt
check_expiry (at t) now skew = if is_past (at t) now skew then err (Error.expired t) else ok tt

unfoldable pub check_window : Option Timestamp → Expiry → Timestamp → ℕ → Result Error (Unit {0})
unfolding is_past minus_seconds
check_window none expiry now skew = check_expiry expiry now skew
check_window (some nbf) expiry now skew =
    if ltb_ℤ now (minus_seconds nbf skew)
    then err (Error.not_yet_valid nbf)
    else check_expiry expiry now skew

-- `now` is not before the bound, less the skew.
abbrev pub NotBefore : Option Timestamp → Timestamp → ℕ → Type 0
NotBefore none now skew = Unit
NotBefore (some nbf) now skew = pos_part nbf + neg_part now ≤ pos_part now + skew + neg_part nbf

-- `now` is not past the expiry, plus the skew.
abbrev pub NotPast : Expiry → Timestamp → ℕ → Type 0
NotPast never now skew = Unit
NotPast (at t) now skew = pos_part now + neg_part t ≤ pos_part t + skew + neg_part now

abbrev pub InRange : Option Timestamp → Expiry → Type 0
InRange none never = Unit
InRange none (at t) = IsTimestamp t
InRange (some n) never = IsTimestamp n
InRange (some n) (at t) = IsTimestamp n × IsTimestamp t

before_iff :
    (nbf now : Timestamp) (skew : ℕ)
    → IsTimestamp nbf
    → IsTimestamp now
    → (ltb_ℤ now (minus_seconds nbf skew) ≡ false) ↔ NotBefore (some nbf) now skew
unfolding minus_seconds ◌-ℤ◌
before_iff nbf now skew h hn = ground arith

expiry_iff :
    (expiry : Expiry) (now : Timestamp) (skew : ℕ)
    → InRange none expiry
    → IsTimestamp now
    → (check_expiry expiry now skew ≡ ok tt) ↔ NotPast expiry now skew
unfolding is_past ◌+ℤ◌
expiry_iff never now skew h hn = ground arith
expiry_iff (at t) now skew h hn = ground arith

expiry-InRange :
    (n : Timestamp) (expiry : Expiry)
    → InRange (some n) expiry
    → IsTimestamp n × InRange none expiry
expiry-InRange n never h = (h, tt)
expiry-InRange n (at t) h = h

-- For timestamps in range, a token is inside its window exactly when the current time is neither
-- before its first bound less the skew nor behind its expiry plus the skew, both ends included; that
-- the bounds saturate at the ends of the range makes no difference. A missing first bound admits every
-- time, those before the epoch as well, and a missing expiry every time from the first bound on.
pub check_window_iff :
    (nbf : Option Timestamp) (expiry : Expiry) (now : Timestamp) (skew : ℕ)
    → InRange nbf expiry
    → IsTimestamp now
    → (check_window nbf expiry now skew ≡ ok tt)
      ↔ (NotBefore nbf now skew × NotPast expiry now skew)
unfolding check_window
check_window_iff none expiry now skew h hn =
    let e = expiry_iff expiry now skew h hn in (λ w. (tt, e.0 w), λ p. e.1 p.1)
check_window_iff (some nbf) expiry now skew h hn =
    let (hb, he) = expiry-InRange nbf expiry h in
    let b = before_iff nbf now skew hb hn in
    let e = expiry_iff expiry now skew he hn in
    elim (Bool-cases (ltb_ℤ now (minus_seconds nbf skew))) [
      | inl early ↦ rw (early, check_window) ((λ w. cc), λ p. cc (b.1 p.0))
      | inr started ↦ rw (started, check_window) ((λ w. (b.0 started, e.0 w)), λ p. e.1 p.1)
    ]
