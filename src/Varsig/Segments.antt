-- ===== src/Varsig/Segments.antt =====
-- src/varsig.rs: the loop over the segments of a header.
use pq_ucan.Base.{
  ℕ, zero, suc, ◌^◌, ◌<◌, ◌≤◌, ◌≡◌, ◌↔◌, refl, sym, ap, ap₂, subst, ◌∙◌, List, [], ◌∷◌, ◌++◌, Bytes,
  All, some, ok, take, drop, length, length-append, le→leb, arith, ok-injective, >>=-eq-ok, ok_or,
  ok_or-eq-ok, map_err, map_err_iff,
}
use pq_ucan.Codec.Heads.{IsByte}
use pq_ucan.Codec.Varint
use pq_ucan.Codec.Varint.{put_uvarint, read_uvarint}
use pq_ucan.Codec.Varint.RoundTrip.{read_uvarint-eq-ok, read_uvarint-put_uvarint}
use pq_ucan.Error.{VarsigError}
use pq_ucan.Varsig.{read_segments, put_segments, behind}

put_uvarint_pos : (v : ℕ) → 1 ≤ length (put_uvarint v)
unfolding put_uvarint Varint.put_groups
put_uvarint_pos v = ground arith

written_pos : (v : ℕ) (rest : Bytes) → 1 ≤ length (put_uvarint v ++ rest)
written_pos v rest = omega (arith, length-append (put_uvarint v) rest, put_uvarint_pos v)

drop_front : (n : ℕ) (bytes : Bytes) → take n bytes ++ drop n bytes ≡ bytes
drop_front zero bytes = refl
drop_front (suc n) [] = refl
drop_front (suc n) (b ∷ bytes) = ap (λ l. b ∷ l) (drop_front n bytes)

All-drop : (n : ℕ) (bytes : Bytes) → All IsByte bytes → All IsByte (drop n bytes)
All-drop zero bytes all = all
All-drop (suc n) [] all = tt
All-drop (suc n) (b ∷ bytes) all = All-drop n bytes all.1

behind-eq-some :
    (used : ℕ) (bytes rest : Bytes) → behind used bytes ≡ some rest → drop used bytes ≡ rest
behind-eq-some used bytes rest h = ground arith

pub read_segments-eq-ok :
    (fuel : ℕ) (bytes : Bytes) (vs : List ℕ)
    → All IsByte bytes
    → read_segments fuel bytes ≡ ok vs
    → put_segments vs ≡ bytes
unfolding read_segments
read_segments-eq-ok zero [] vs all h = ap put_segments (sym (ok-injective h))
read_segments-eq-ok (suc fuel) [] vs all h = ap put_segments (sym (ok-injective h))
read_segments-eq-ok zero (b ∷ bytes) vs all h = cc
read_segments-eq-ok (suc fuel) (b ∷ bytes) vs all h =
    let ((value, used), read, h1) =
      >>=-eq-ok (map_err (λ e. VarsigError.varint) (read_uvarint (b ∷ bytes))) _ h in
    let (rest, moved, h2) = >>=-eq-ok (ok_or (behind used (b ∷ bytes)) VarsigError.varint) _ h1 in
    let (values, later, h3) = >>=-eq-ok (read_segments fuel rest) _ h2 in
    let left =
      behind-eq-some used (b ∷ bytes) rest
        (ok_or-eq-ok (behind used (b ∷ bytes)) VarsigError.varint moved) in
    let first =
      (read_uvarint-eq-ok (b ∷ bytes) value used all (
        (map_err_iff (λ e. VarsigError.varint) (read_uvarint (b ∷ bytes)) (value, used)).0
          read)).0 in
    let others =
      read_segments-eq-ok fuel rest values (subst (All IsByte) left (All-drop used (b ∷ bytes) all))
        later in
    ap put_segments (sym (ok-injective h3))
    ∙ ap₂ (λ p q. p ++ q) (sym first) (others ∙ sym left)
    ∙ drop_front used (b ∷ bytes)

drop_written : (front rest : Bytes) → drop (length front) (front ++ rest) ≡ rest
drop_written [] rest = refl
drop_written (b ∷ front) rest = drop_written front rest

behind_written : (front rest : Bytes) → behind (length front) (front ++ rest) ≡ some rest
behind_written front rest =
    rw (le→leb (length front) (length (front ++ rest)) (omega (arith, length-append front rest)))
      (ap some (drop_written front rest))

-- One round of the loop on a segment that was written.
read_segments-put_uvarint :
    (fuel v : ℕ) (rest : Bytes) (values : List ℕ)
    → v < 2 ^ 64
    → read_segments fuel rest ≡ ok values
    → read_segments (suc fuel) (put_uvarint v ++ rest) ≡ ok (v ∷ values)
unfolding read_segments
read_segments-put_uvarint fuel v rest values small later =
    round (put_uvarint v ++ rest) (written_pos v rest) refl
  where
    round :
        (bytes : Bytes)
        → 1 ≤ length bytes
        → bytes ≡ put_uvarint v ++ rest
        → read_segments (suc fuel) bytes ≡ ok (v ∷ values)
    round [] some_bytes same = absurd (omega (arith, some_bytes))
    round (b ∷ bytes) some_bytes same =
        let first : read_uvarint (b ∷ bytes) ≡ ok (v, length (put_uvarint v)) =
          ap read_uvarint same ∙ read_uvarint-put_uvarint v rest small in
        let moved : behind (length (put_uvarint v)) (b ∷ bytes) ≡ some rest =
          ap (behind (length (put_uvarint v))) same ∙ behind_written (put_uvarint v) rest in
        rw (first, moved, later) refl

read_segments-put_segments :
    (fuel : ℕ) (vs : List ℕ)
    → All (λ v. v < 2 ^ 64) vs
    → length (put_segments vs) ≤ fuel
    → read_segments fuel (put_segments vs) ≡ ok vs
unfolding read_segments
read_segments-put_segments zero [] small enough = refl
read_segments-put_segments (suc fuel) [] small enough = refl
read_segments-put_segments zero (v ∷ vs) small enough =
    absurd (omega (arith, enough, written_pos v (put_segments vs)))
read_segments-put_segments (suc fuel) (v ∷ vs) small enough =
    read_segments-put_uvarint fuel v (put_segments vs) vs small.0 (
      read_segments-put_segments fuel vs small.1
        (omega (arith, enough, length-append (put_uvarint v) (put_segments vs), put_uvarint_pos v)))

-- With as many rounds as there are bytes, or more, the loop reads exactly what is written: it gives a
-- list of numbers of 64 bits exactly where the bytes are those numbers, each as its varint.
pub read_segments_iff :
    (fuel : ℕ) (bytes : Bytes) (vs : List ℕ)
    → All IsByte bytes
    → length bytes ≤ fuel
    → All (λ v. v < 2 ^ 64) vs
    → (read_segments fuel bytes ≡ ok vs) ↔ (put_segments vs ≡ bytes)
read_segments_iff fuel bytes vs all enough small = (
  λ h. read_segments-eq-ok fuel bytes vs all h,
  λ e.
      ap (read_segments fuel) (sym e)
      ∙ read_segments-put_segments fuel vs small (subst (λ b. length b ≤ fuel) (sym e) enough),
)
