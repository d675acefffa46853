-- ===== src/Codec/Heads/Inverse.antt =====
-- src/codec: item heads read, with the bytes that are written for them.
use pq_ucan.Base.{
  ℕ, suc, ◌+◌, ◌*◌, ◌/◌, ◌%◌, ◌^◌, ◌≤◌, ◌<◌, ◌≡◌, refl, sym, ap, subst, ◌∙◌, true, false, not, leb,
  ltb, ◌==◌, [], ◌∷◌, ◌++◌, append-nil, append_assoc, length, Bytes, All, arith, Result, ok,
  >>=-eq-ok, ok-injective, ensure, ensure-eq-ok, Bool-cases, inl, inr,
}
use native.Mathlib.Nat.{mul-le-mul_right}
use pq_ucan.Codec.{CodecError, non_minimal_integer, unexpected_type}
use pq_ucan.Codec.Encode
use pq_ucan.Codec.Encode.{to_be_bytes}
use pq_ucan.Codec.Heads.{IsByte, cursor, take_bytes-eq-ok}
use pq_ucan.Codec.Reader
use pq_ucan.Codec.Reader.{
  Reader, Head, byte, take_bytes, from_be_bytes, fixed_argument, byte_argument, argument,
}

to_be_bytes-from_be_bytes_step :
    (n a : ℕ) (bs : Bytes)
    → All IsByte bs
    → to_be_bytes (n + length bs) (from_be_bytes a bs) ≡ to_be_bytes n a ++ bs
to_be_bytes-from_be_bytes_step n a [] h =
    let none_more : n + 0 ≡ n = omega arith in
    ap (λ k. to_be_bytes k a) none_more ∙ sym (append-nil (to_be_bytes n a))
to_be_bytes-from_be_bytes_step n a (b ∷ bs) h =
    let e1 : (a * 256 + b) / 256 ≡ a = omega (arith, h.0) in
    let e2 : (a * 256 + b) % 256 ≡ b = omega (arith, h.0) in
    let moved : n + suc (length bs) ≡ suc n + length bs = omega arith in
    ap (λ k. to_be_bytes k (from_be_bytes (a * 256 + b) bs)) moved
    ∙ to_be_bytes-from_be_bytes_step (suc n) (a * 256 + b) bs h.1
    ∙ ap (λ l. l ++ bs) (rw (e1, e2) refl)
    ∙ append_assoc (to_be_bytes n a) (b ∷ []) bs

pub to_be_bytes-from_be_bytes :
    (n : ℕ) (bs : Bytes) → All IsByte bs → length bs ≡ n → to_be_bytes n (from_be_bytes 0 bs) ≡ bs
to_be_bytes-from_be_bytes n bs h e =
    let start : n ≡ 0 + length bs = omega arith in
    ap (λ k. to_be_bytes k (from_be_bytes 0 bs)) start ∙ to_be_bytes-from_be_bytes_step 0 0 bs h

scale : (a b k n : ℕ) → b < 256 → n < (a * 256 + b + 1) * k → n < (a + 1) * (256 * k)
scale a b k n h bound =
    let small : a * 256 + b + 1 ≤ (a + 1) * 256 = omega (arith, h) in
    omega (arith, bound, mul-le-mul_right k small)

pub from_be_bytes_bound :
    (a : ℕ) (bs : Bytes) → All IsByte bs → from_be_bytes a bs < (a + 1) * 256 ^ length bs
from_be_bytes_bound a [] h = omega arith
from_be_bytes_bound a (b ∷ bs) h =
    let rest = from_be_bytes_bound (a * 256 + b) bs h.1 in
    let grown : 256 ^ suc (length bs) ≡ 256 * 256 ^ length bs = omega arith in
    subst (λ k. from_be_bytes (a * 256 + b) bs < (a + 1) * k) (sym grown)
      (scale a b (256 ^ length bs) _ h.0 rest)

pub All-front : (P : ℕ → Type 0) (xs ys : Bytes) → All P (xs ++ ys) → All P xs
All-front P [] ys h = tt
All-front P (x ∷ xs) ys h = (h.0, All-front P xs ys h.1)

pub All-back : (P : ℕ → Type 0) (xs ys : Bytes) → All P (xs ++ ys) → All P ys
All-back P [] ys h = h
All-back P (x ∷ xs) ys h = All-back P xs ys h.1

-- An argument of `n` bytes.
pub record Wide (n least : ℕ) (unread : Bytes) (v : ℕ) (r : Reader) : Type 0 where
  pub written : unread ≡ to_be_bytes n v ++ r.rest
  pub low : least ≤ v
  pub high : v < 256 ^ n

fixed_argument-Wide :
    (n least at v : ℕ) (unread : Bytes) (r : Reader)
    → All IsByte unread
    → fixed_argument n least (cursor unread at) ≡ ok (v, r)
    → Wide n least unread v r
fixed_argument-Wide n least at v unread r all h =
    let ((got, r1), taken, h1) = >>=-eq-ok (take_bytes n (cursor unread at)) _ h in
    let (_, above, h2) =
      >>=-eq-ok (ensure (leb least (from_be_bytes 0 got)) non_minimal_integer) _ h1 in
    let (split, size, _) = take_bytes-eq-ok n at unread got r1 taken in
    let same : (from_be_bytes 0 got, r1) ≡ (v, r) = ok-injective h2 in
    let value : from_be_bytes 0 got ≡ v = ap (λ p. p.0) same in
    let bytes = All-front IsByte got r1.rest (subst (All IsByte) split all) in
    let low = ensure-eq-ok (leb least (from_be_bytes 0 got)) non_minimal_integer above in
    let bound : from_be_bytes 0 got < 256 ^ length got =
      omega (arith, from_be_bytes_bound 0 got bytes) in
    let back = to_be_bytes-from_be_bytes n got bytes size in
    record {
      written =
          split
          ∙ ap (λ l. l ++ r1.rest) (sym back)
          ∙ ap (λ (p : ℕ × Reader). to_be_bytes n p.0 ++ p.1.rest) same;
      low = ground arith;
      high = rw size at (rw value at bound);
    }

-- What was read behind the first byte of a head: `extra`.
pub record Argument (info : ℕ) (unread : Bytes) (v : ℕ) (r : Reader) : Type 0 where
  pub extra : Bytes
  pub split : unread ≡ extra ++ r.rest
  pub written : (major : ℕ) → Encode.head major v ≡ (major * 32 + info) ∷ extra
  pub bound : v < 2 ^ 64

tiny-Argument :
    (info at v : ℕ) (unread : Bytes) (r : Reader)
    → ltb info 24 ≡ true
    → Path (Result CodecError (ℕ × Reader)) (ok (info, cursor unread at)) (ok (v, r))
    → Argument info unread v r
unfolding Encode.head
tiny-Argument info at v unread r tiny h =
    let same : (info, cursor unread at) ≡ (v, r) = ok-injective h in
    let value : info ≡ v = ap (λ p. p.0) same in
    record {
      extra = [];
      split = ap (λ (p : ℕ × Reader). p.1.rest) same;
      written =
          λ major. subst (λ k. Encode.head major k ≡ (major * 32 + info) ∷ []) value (ground arith);
      bound = ground arith;
    }

Wide-Argument :
    (n info least v : ℕ) (unread : Bytes) (r : Reader)
    → Wide n least unread v r
    → ((major : ℕ) → Encode.head major v ≡ (major * 32 + info) ∷ to_be_bytes n v)
    → 256 ^ n ≤ 2 ^ 64
    → Argument info unread v r
Wide-Argument n info least v unread r wide written small = record {
  extra = to_be_bytes n v;
  split = wide.written;
  written = written;
  bound = omega (arith, wide.high, small);
}

byte_argument-Argument :
    (at v : ℕ) (unread : Bytes) (r : Reader)
    → All IsByte unread
    → byte_argument (cursor unread at) ≡ ok (v, r)
    → Argument 24 unread v r
unfolding byte Encode.head
byte_argument-Argument at v [] r all h = ground arith
byte_argument-Argument at v (b ∷ bs) r all h =
    let (_, above, h1) = >>=-eq-ok (ensure (leb 24 b) non_minimal_integer) _ h in
    let low = ensure-eq-ok (leb 24 b) non_minimal_integer above in
    let same : (b, cursor bs (at + 1)) ≡ (v, r) = ok-injective h1 in
    let value : b ≡ v = ap (λ p. p.0) same in
    let small : leb v 0xff ≡ true = ground (arith, all.0) in
    let above' : leb v 23 ≡ false = ground arith in
    let one : v % 256 ≡ v = ground (arith, all.0) in
    record {
      extra = v ∷ [];
      split = ap (λ (p : ℕ × Reader). p.0 ∷ p.1.rest) same;
      written = λ major. rw (above', small, one) refl;
      bound = ground (arith, all.0);
    }

-- An argument that was read is in its shortest form.
argument-eq-ok :
    (info at v : ℕ) (unread : Bytes) (r : Reader)
    → All IsByte unread
    → argument info (cursor unread at) ≡ ok (v, r)
    → Argument info unread v r
unfolding argument Encode.head
argument-eq-ok info at v unread r all h = elim (Bool-cases (ltb info 24)) [
  | inl tiny ↦ tiny-Argument info at v unread r tiny (rw tiny at h)
  | inr more ↦ elim (Bool-cases (info == 24)) [
    | inl one ↦
        let is : info ≡ 24 = ground arith in
        subst (λ k. Argument k unread v r) (sym is)
          (byte_argument-Argument at v unread r all (rw (more, one) at h))
    | inr more1 ↦ elim (Bool-cases (info == 25)) [
      | inl two ↦
          let is : info ≡ 25 = ground arith in
          let wide = fixed_argument-Wide 2 0x100 at v unread r all (rw (more, more1, two) at h) in
          Wide-Argument 2 info 0x100 v unread r wide
            (λ major. rw is (ground (arith, wide.low, wide.high))) (omega arith)
      | inr more2 ↦ elim (Bool-cases (info == 26)) [
        | inl four ↦
            let is : info ≡ 26 = ground arith in
            let wide =
              fixed_argument-Wide 4 0x10000 at v unread r all
                (rw (more, more1, more2, four) at h) in
            Wide-Argument 4 info 0x10000 v unread r wide
              (λ major. rw is (ground (arith, wide.low, wide.high))) (omega arith)
        | inr more3 ↦ elim (Bool-cases (info == 27)) [
          | inl eight ↦
              let is : info ≡ 27 = ground arith in
              let wide =
                fixed_argument-Wide 8 0x100000000 at v unread r all
                  (rw (more, more1, more2, more3, eight) at h) in
              Wide-Argument 8 info 0x100000000 v unread r wide
                (λ major. rw is (ground (arith, wide.low, wide.high))) (omega arith)
          | inr more4 ↦ ground arith
        ]
      ]
    ]
  ]
]

-- A head that was read, as the front of what was unread.
pub record Written (unread : Bytes) (h : Head) (r : Reader) : Type 0 where
  pub split : unread ≡ Encode.head h.major h.arg ++ r.rest
  pub major_bound : h.major < 7
  pub arg_bound : h.arg < 2 ^ 64

-- What was read as a head is how `encode` writes that head.
pub head-eq-ok :
    (at : ℕ) (unread : Bytes) (h : Head) (r : Reader)
    → All IsByte unread
    → Reader.head (cursor unread at) ≡ ok (h, r)
    → Written unread h r
unfolding Reader.head byte
head-eq-ok at [] h r all e = ground arith
head-eq-ok at (b ∷ bs) h r all e =
    let (_, simple, e1) = >>=-eq-ok (ensure (not (b / 32 == 7)) unexpected_type) _ e in
    let major_bound : b / 32 < 7 =
      ground (arith, ensure-eq-ok (not (b / 32 == 7)) unexpected_type simple, all.0) in
    let ((n, r2), read, e2) = >>=-eq-ok (argument (b % 32) (cursor bs (at + 1))) _ e1 in
    let arg = argument-eq-ok (b % 32) (at + 1) n bs r2 all.1 read in
    let same : (record { major = b / 32; arg = n }, r2) ≡ (h, r) = ok-injective e2 in
    let first : b / 32 * 32 + b % 32 ≡ b = omega arith in
    subst (λ (p : Head × Reader). Written (b ∷ bs) p.0 p.1) same
      record {
        split =
            ap (λ l. b ∷ l) arg.split
            ∙ ap (λ k. k ∷ (arg.extra ++ r2.rest)) (sym first)
            ∙ ap (λ l. l ++ r2.rest) (sym (arg.written (b / 32)));
        major_bound = major_bound;
        arg_bound = arg.bound;
      }
