-- ===== src/Codec/Canonical.antt =====
-- src/codec: from bytes to values, with the bytes that `encode` writes for them.
pub mod Items
pub mod Maps
pub mod Simple
pub mod Values
pub mod Loops
use pq_ucan.Base.{
  ℕ, zero, suc, ◌+◌, ◌*◌, ◌/◌, ◌%◌, ◌≡◌, refl, sym, ap, subst, ◌∙◌, Bool, true, false, not, ◌&&◌,
  ◌||◌, ◌==◌, if◌then◌else◌, pos, negsuc, List, [], ◌∷◌, ◌++◌, append_assoc, some, length, Bytes,
  Text, utf8, from_utf8, from_utf8-eq-some, All, arith, Result, ok, err, ◌>>=◌, ◌>>◌, >>=-eq-ok,
  ok-injective, ok_or, ok_or-eq-ok, ensure, ensure-eq-ok, Bool-cases, inl, inr,
}
use pq_ucan.Codec.{CodecError, unexpected_type, invalid_utf8}
use pq_ucan.Codec.Encode
use pq_ucan.Codec.Heads.{IsByte, cursor, take_bytes-eq-ok}
use pq_ucan.Codec.Heads.Inverse.{Written, head-eq-ok, All-back}
use pq_ucan.Codec.Reader
use pq_ucan.Codec.Reader.{Reader, Head, expect_head, take_bytes, read_bytes, read_text, text_of}

-- What was read is the front of what was unread, and it is what is written.
pub record Used (unread : Bytes) (r : Reader) (written : Result CodecError Bytes) : Type 0 where
  pub part : Bytes
  pub split : unread ≡ part ++ r.rest
  pub same : written ≡ ok part

-- Two parts in a row.
pub parts :
    (unread between p q end : Bytes)
    → unread ≡ p ++ between
    → between ≡ q ++ end
    → unread ≡ (p ++ q) ++ end
parts unread between p q end first second =
    first ∙ ap (λ l. p ++ l) second ∙ sym (append_assoc p q end)

-- What is unread behind a part are bytes as well.
pub bytes_left :
    (unread part rest : Bytes) → unread ≡ part ++ rest → All IsByte unread → All IsByte rest
bytes_left unread part rest split all = All-back IsByte part rest (subst (All IsByte) split all)

pub expect_head-eq-ok :
    (major n : ℕ) (r0 r : Reader)
    → All IsByte r0.rest
    → expect_head major r0 ≡ ok (n, r)
    → Written r0.rest (record { major = major; arg = n }) r
expect_head-eq-ok major n r0 r all h =
    let ((found, r1), read, h1) = >>=-eq-ok (Reader.head r0) _ h in
    let (_, right, h2) = >>=-eq-ok (ensure (found.major == major) unexpected_type) _ h1 in
    let matches = ensure-eq-ok (found.major == major) unexpected_type right in
    let is : found.major ≡ major = ground arith in
    let same : (found.arg, r1) ≡ (n, r) = ok-injective h2 in
    let whole = head-eq-ok r0.pos r0.rest found r1 all read in
    subst (λ k. Written r0.rest (record { major = k; arg = n }) r) is
      (subst (λ (p : ℕ × Reader). Written r0.rest (record { major = found.major; arg = p.0 }) p.1)
        same whole)

-- `n` bytes behind their head.
pub behind_head :
    (major n : ℕ) (raw : Bytes) (r0 r1 r : Reader)
    → Written r0.rest (record { major = major; arg = n }) r1
    → take_bytes n r1 ≡ ok (raw, r)
    → r0.rest ≡ (Encode.head major (length raw) ++ raw) ++ r.rest
behind_head major n raw r0 r1 r whole taken =
    let (split, size, _) = take_bytes-eq-ok n r1.pos r1.rest raw r taken in
    parts r0.rest r1.rest (Encode.head major (length raw)) raw r.rest
      (subst (λ k. r0.rest ≡ Encode.head major k ++ r1.rest) (sym size) whole.split) split

pub read_bytes-eq-ok :
    (raw : Bytes) (r0 r : Reader)
    → All IsByte r0.rest
    → read_bytes r0 ≡ ok (raw, r)
    → r0.rest ≡ Encode.bytes raw ++ r.rest
unfolding read_bytes Encode.bytes
read_bytes-eq-ok raw r0 r all h =
    let ((n, r1), read, h1) = >>=-eq-ok (expect_head 2 r0) _ h in
    behind_head 2 n raw r0 r1 r (expect_head-eq-ok 2 n r0 r1 all read) h1

pub text_of-eq-ok :
    (n : ℕ) (s : Text) (r0 r1 r : Reader)
    → Written r0.rest (record { major = 3; arg = n }) r1
    → text_of n r1 ≡ ok (s, r)
    → r0.rest ≡ Encode.text s ++ r.rest
unfolding Encode.text
text_of-eq-ok n s r0 r1 r whole h =
    let ((raw, r2), taken, h1) = >>=-eq-ok (take_bytes n r1) _ h in
    let (t, decoded, h2) = >>=-eq-ok (ok_or (from_utf8 raw) invalid_utf8) _ h1 in
    let same : (t, r2) ≡ (s, r) = ok-injective h2 in
    let (is, _) = from_utf8-eq-some raw t (ok_or-eq-ok (from_utf8 raw) invalid_utf8 decoded) in
    subst
      (λ (p : Text × Reader). r0.rest ≡ (Encode.head 3 (length (utf8 p.0)) ++ utf8 p.0) ++ p.1.rest)
      same
      (subst (λ b. r0.rest ≡ (Encode.head 3 (length b) ++ b) ++ r2.rest) (sym is)
        (behind_head 3 n raw r0 r1 r2 whole taken))

pub read_text-eq-ok :
    (s : Text) (r0 r : Reader)
    → All IsByte r0.rest
    → read_text r0 ≡ ok (s, r)
    → r0.rest ≡ Encode.text s ++ r.rest
unfolding read_text
read_text-eq-ok s r0 r all h =
    let ((n, r1), read, h1) = >>=-eq-ok (expect_head 3 r0) _ h in
    text_of-eq-ok n s r0 r1 r (expect_head-eq-ok 3 n r0 r1 all read) h1
