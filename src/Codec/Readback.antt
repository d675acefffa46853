-- ===== src/Codec/Readback.antt =====
-- src/codec: readers over what was written. A reader that reads a value back leaves what follows it.
pub mod Items
pub mod Values
pub mod Loops
use pq_ucan.Base.{
  ℕ, zero, suc, ◌+◌, ◌-◌, ◌*◌, ◌/◌, ◌%◌, ◌^◌, ◌≤◌, ◌<◌, ◌≡◌, refl, sym, ap, subst, ◌∙◌, Bool, true,
  false, leb, ltb, ◌==◌, not, if◌then◌else◌, List, [], ◌∷◌, ◌++◌, append_assoc, some, length,
  length-append, Bytes, Text, utf8, from_utf8, from_utf8-utf8, IsScalar, All, arith, Result, ok,
  err, ◌>>=◌, ◌>>◌, ok_or, ensure, map_err, Bool-cases, inl, inr,
}
use pq_ucan.Codec.{CodecError, unexpected_type, invalid_utf8}
use pq_ucan.Codec.Encode
use pq_ucan.Codec.Encode.{to_be_bytes}
use pq_ucan.Codec.Heads.{cursor, head-append, take_bytes-append}
use pq_ucan.Codec.Reader
use pq_ucan.Codec.Reader.{
  Reader, Read, Head, expect_head, take_bytes, read_bytes, read_text, text_of,
}

-- A buffer is shorter than 2^63 bytes.
abbrev pub ReadsBack : {A : Type 0} → Read A → A → Bytes → Type 0
ReadsBack reader value used =
    (rest : Bytes) (at : ℕ)
    → at + length used < 2 ^ 63
    → reader (cursor (used ++ rest) at) ≡ ok (value, cursor rest (at + length used))

pub reads_then :
    {A B : Type 0} (first : Read A) (next : A → Read B) (a : A) (b : B) (p q : Bytes)
    → ReadsBack first a p
    → ReadsBack (next a) b q
    → ReadsBack (λ r. first r >>= λ x. next x.0 x.1) b (p ++ q)
reads_then first next a b p q one two rest at room =
    let size : length (p ++ q) ≡ length p + length q = length-append p q in
    let total : at + length p + length q ≡ at + length (p ++ q) = omega (arith, size) in
    ap (λ l. first (cursor l at) >>= λ x. next x.0 x.1) (append_assoc p q rest)
    ∙ ap (λ (e : Result CodecError (_ × Reader)). e >>= λ x. next x.0 x.1)
        (one (q ++ rest) at (omega (arith, size)))
    ∙ two rest (at + length p) (omega (arith, size))
    ∙ ap (λ n. ok (b, cursor rest n)) total

pub reads_map :
    {A B : Type 0} (first : Read A) (f : A → B) (a : A) (p : Bytes)
    → ReadsBack first a p
    → ReadsBack (λ r. first r >>= λ x. ok (f x.0, x.1)) (f a) p
reads_map first f a p one rest at room =
    ap (λ (e : Result CodecError (_ × Reader)). e >>= λ x. ok (f x.0, x.1)) (one rest at room)

pub reads_head :
    (major n : ℕ)
    → major < 7
    → n < 2 ^ 64
    → ReadsBack Reader.head (record { major = major; arg = n }) (Encode.head major n)
reads_head major n small fits rest at room =
    head-append major n rest at small fits (omega (arith, room))

pub reads_expect_head :
    (major n : ℕ) → major < 7 → n < 2 ^ 64 → ReadsBack (expect_head major) n (Encode.head major n)
reads_expect_head major n small fits rest at room =
    let same : major == major ≡ true = ground arith in
    rw (reads_head major n small fits rest at room) (rw same refl)

pub reads_take : (b : Bytes) → ReadsBack (take_bytes (length b)) b b
reads_take b rest at room = take_bytes-append b rest at (omega (arith, room))

pub reads_bytes : (b : Bytes) → length b < 2 ^ 64 → ReadsBack read_bytes b (Encode.bytes b)
unfolding read_bytes Encode.bytes
reads_bytes b fits =
    reads_then (expect_head 2) take_bytes (length b) b (Encode.head 2 (length b)) b
      (reads_expect_head 2 (length b) (omega arith) fits) (reads_take b)

pub reads_text_of : (s : Text) → All IsScalar s → ReadsBack (text_of (length (utf8 s))) s (utf8 s)
reads_text_of s scalars rest at room =
    rw (reads_take (utf8 s) rest at room) (rw (from_utf8-utf8 s scalars) refl)

pub reads_text :
    (s : Text) → All IsScalar s → length (utf8 s) < 2 ^ 64 → ReadsBack read_text s (Encode.text s)
unfolding read_text Encode.text
reads_text s scalars fits =
    reads_then (expect_head 3) text_of (length (utf8 s)) s (Encode.head 3 (length (utf8 s)))
      (utf8 s) (reads_expect_head 3 (length (utf8 s)) (omega arith) fits) (reads_text_of s scalars)

-- The first byte of a head holds the major type.
pub record Begins (major v : ℕ) : Type 0 where
  pub first : ℕ
  pub later : Bytes
  pub same : Encode.head major v ≡ first ∷ later
  pub major_of : first / 32 ≡ major

extra-Begins :
    (major v info : ℕ) (extra : Bytes)
    → Encode.head major v ≡ (major * 32 + info) ∷ extra
    → info < 32
    → Begins major v
extra-Begins major v info extra same small = record {
  first = major * 32 + info;
  later = extra;
  same = same;
  major_of = omega arith;
}

pub head-Begins : (major v : ℕ) → Begins major v
unfolding Encode.head
head-Begins major v = elim (Bool-cases (leb v 23)) [
  | inl tiny ↦ extra-Begins major v v [] (rw tiny refl) (ground arith)
  | inr more ↦ elim (Bool-cases (leb v 0xff)) [
    | inl one ↦ extra-Begins major v 24 (to_be_bytes 1 v) (rw (more, one) refl) (omega arith)
    | inr more1 ↦ elim (Bool-cases (leb v 0xffff)) [
      | inl two ↦
          extra-Begins major v 25 (to_be_bytes 2 v) (rw (more, more1, two) refl) (omega arith)
      | inr more2 ↦ elim (Bool-cases (leb v 0xffffffff)) [
        | inl four ↦
            extra-Begins major v 26 (to_be_bytes 4 v) (rw (more, more1, more2, four) refl)
              (omega arith)
        | inr more3 ↦
            extra-Begins major v 27 (to_be_bytes 8 v) (rw (more, more1, more2, more3) refl)
              (omega arith)
      ]
    ]
  ]
]

pub head_pos : (major v : ℕ) → 1 ≤ length (Encode.head major v)
head_pos major v =
    let f = head-Begins major v in subst (λ l. 1 ≤ length l) (sym f.same) (omega arith)
