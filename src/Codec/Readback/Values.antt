-- ===== src/Codec/Readback/Values.antt =====
-- src/codec: the values that hold no others, written and read back.
use pq_ucan.Base.{
  ℕ, suc, ◌+◌, ◌*◌, ◌/◌, ◌%◌, ◌^◌, ◌≡◌, ◌≢◌, ◌<◌, refl, sym, ap, subst, ◌∙◌, true, false, not, ◌&&◌,
  ◌==◌, if◌then◌else◌, pos, negsuc, [], ◌∷◌, ◌++◌, append-nil, some, length, length-append, Bytes,
  Text, utf8, IsScalar, All, arith, Result, ok, ◌>>=◌, >>=-eq-ok, ok-injective, ensure,
  ensure-eq-ok, Bool-cases, inl, inr, text_eq_refl,
}
use pq_ucan.Cid.{CidCrate, from_bytes}
use pq_ucan.Ipld.{Ipld}
use pq_ucan.Codec.{CodecError}
use pq_ucan.Codec.Canonical.Simple.{float_is_zero}
use pq_ucan.Codec.Decode
use pq_ucan.Codec.Decode.{
  Entry, key_bytes, cid_tag, cid_multibase_identity, split_first, link_error, read_link,
  bytes_value, text_value, by_major, headed, simple, float_value, decode, read_list, read_map,
}
use pq_ucan.Codec.Encode
use pq_ucan.Codec.Encode.{to_be_bytes, to_u64, encode, write_list, write_map}
use pq_ucan.Codec.Heads.{cursor, length-to_be_bytes, from_be_bytes-to_be_bytes}
use pq_ucan.Codec.Readback.{
  ReadsBack, reads_then, reads_map, reads_head, reads_take, reads_bytes, reads_text_of, head-Begins,
  head_pos,
}
use pq_ucan.Codec.Readback.Loops.{IsReadBack}
use pq_ucan.Codec.Reader
use pq_ucan.Codec.Reader.{
  Reader, Read, Head, take_bytes, from_be_bytes, read_bytes, text_of, start, finish,
}
use pq_ucan.Float

float_is_minus_zero :
    (f : ℕ) → Float.eq f 0 ≡ true → Float.is_sign_negative f ≡ true → f < 2 ^ 64 → f ≡ 2 ^ 63
unfolding Float.eq Float.partial_cmp Float.is_nan
float_is_minus_zero f e negative small = ground arith

-- What `encode` makes of a float, and `decode` takes.
float_kept :
    (f : ℕ)
    → f < 2 ^ 64
    → f ≢ 2 ^ 63
    → ((if Float.eq f 0 then 0 else f) ≡ f)
      × (not (Float.eq f 0 && Float.is_sign_negative f) ≡ true)
float_kept f small other = elim (Bool-cases (Float.eq f 0)) [
  | inl zero_float ↦ elim (Bool-cases (Float.is_sign_negative f)) [
    | inl negative ↦ absurd (other (float_is_minus_zero f zero_float negative small))
    | inr positive ↦
        (rw zero_float (sym (float_is_zero f zero_float positive)), rw (zero_float, positive) refl)
  ]
  | inr not_zero ↦ (rw not_zero refl, rw not_zero refl)
]

module _ {C : Type 0} (crate : CidCrate C) where
  headed_at :
      (levels b at : ℕ) (bs : Bytes)
      → b / 32 < 7
      → Decode.item crate (suc levels) (cursor (b ∷ bs) at)
        ≡ headed crate (Decode.item crate levels) (cursor (b ∷ bs) at)
  unfolding Decode.item
  headed_at levels b at bs small = let other : b / 32 == 7 ≡ false = ground arith in rw other refl

  -- An item that starts with a head.
  pub headed-reads :
      (levels major n : ℕ) (v : Ipld C) (body : Bytes)
      → major < 7
      → (length body < 2 ^ 63 → n < 2 ^ 64)
      → ReadsBack
          (by_major crate (Decode.item crate levels) (record { major = major; arg = n }))
          v
          body
      → IsReadBack (Decode.item crate (suc levels)) v (Encode.head major n ++ body)
  headed-reads levels major n v body small fits reads =
      let f = head-Begins major n in
      let size : length (Encode.head major n ++ body) ≡ length (Encode.head major n) + length body =
        length-append (Encode.head major n) body in
      record {
        reads = λ rest at room.
            let shape : (Encode.head major n ++ body) ++ rest
                ≡ f.first ∷ ((f.later ++ body) ++ rest) =
              ap (λ l. (l ++ body) ++ rest) f.same in
            let not_simple : f.first / 32 < 7 = omega (arith, f.major_of, small) in
            ap (λ l. Decode.item crate (suc levels) (cursor l at)) shape
            ∙ headed_at levels f.first at ((f.later ++ body) ++ rest) not_simple
            ∙ ap (λ l. headed crate (Decode.item crate levels) (cursor l at)) (sym shape)
            ∙ reads_then Reader.head (by_major crate (Decode.item crate levels))
                (record { major = major; arg = n }) v (Encode.head major n) body
                (reads_head major n small (fits (omega (arith, room, size)))) reads rest at room;
        pos = omega (arith, size, head_pos major n);
      }

  pub integer-reads :
      (levels n : ℕ)
      → n < 2 ^ 64
      → IsReadBack (Decode.item crate (suc levels)) (Ipld.integer (pos n)) (Encode.head 0 n)
        × IsReadBack (Decode.item crate (suc levels)) (Ipld.integer (negsuc n)) (Encode.head 1 n)
  unfolding by_major
  integer-reads levels n fits = (
    alone 0 (Ipld.integer (pos n)) (omega arith)
        (λ rest at room. stays (Ipld.integer (pos n)) rest at),
    alone 1 (Ipld.integer (negsuc n)) (omega arith)
        (λ rest at room. stays (Ipld.integer (negsuc n)) rest at),
  )
    where
      stays :
          (v : Ipld C) (rest : Bytes) (at : ℕ)
          → Path
              (Result CodecError (Ipld C × Reader))
              (ok (v, cursor rest at))
              (ok (v, cursor rest (at + 0)))
      stays v rest at = let same : at ≡ at + 0 = omega arith in ap (λ k. ok (v, cursor rest k)) same

      alone :
          (major : ℕ) (v : Ipld C)
          → major < 7
          → ReadsBack
              (by_major crate (Decode.item crate levels) (record { major = major; arg = n }))
              v
              []
          → IsReadBack (Decode.item crate (suc levels)) v (Encode.head major n)
      alone major v small reads =
          subst (IsReadBack (Decode.item crate (suc levels)) v) (append-nil (Encode.head major n))
            (headed-reads levels major n v [] small (λ _. fits) reads)

  pub string-reads :
      (levels : ℕ) (s : Text)
      → All IsScalar s
      → IsReadBack (Decode.item crate (suc levels)) (Ipld.string s) (Encode.text s)
  unfolding Encode.text by_major
  string-reads levels s scalars =
      headed-reads levels 3 (length (utf8 s)) (Ipld.string s) (utf8 s) (omega arith)
        (λ h. omega (arith, h))
        (reads_map (text_of (length (utf8 s))) Ipld.string s (utf8 s) (reads_text_of s scalars))

  pub bytes-reads :
      (levels : ℕ) (b : Bytes)
      → IsReadBack (Decode.item crate (suc levels)) (Ipld.bytes b) (Encode.bytes b)
  unfolding Encode.bytes by_major
  bytes-reads levels b =
      headed-reads levels 2 (length b) (Ipld.bytes b) b (omega arith) (λ h. omega (arith, h))
        (reads_map (take_bytes (length b)) Ipld.bytes b b (reads_take b))

  pub link-reads :
      (levels : ℕ) (c : C)
      → crate.try_bytes (crate.to_bytes c) ≡ some c
      → IsReadBack (Decode.item crate (suc levels)) (Ipld.link c) (Encode.link crate c)
  unfolding Encode.link by_major read_link from_bytes Encode.bytes
  link-reads levels c law =
      let raw = 0 ∷ crate.to_bytes c in
      let longer : length (crate.to_bytes c) + 1 ≡ length raw = omega arith in
      let size : length (Encode.head 2 (length raw) ++ raw)
          ≡ length (Encode.head 2 (length raw)) + length raw =
        length-append (Encode.head 2 (length raw)) raw in
      subst
        (λ k.
          IsReadBack (Decode.item crate (suc levels)) (Ipld.link c)
            (Encode.head 6 42 ++ (Encode.head 2 k ++ raw)))
        (sym longer)
        (headed-reads levels 6 42 (Ipld.link c) (Encode.head 2 (length raw) ++ raw) (omega arith)
          (λ _. omega arith)
          (λ rest at room.
            rw (reads_bytes raw (omega (arith, size, room)) rest at room)
              (rw (law, text_eq_refl (crate.to_bytes c)) refl)))

  simple-reads :
      (levels info : ℕ) (v : Ipld C) (body : Bytes)
      → info < 32
      → ReadsBack (simple info) v body
      → IsReadBack (Decode.item crate (suc levels)) v ((7 * 32 + info) ∷ body)
  unfolding Decode.item
  simple-reads levels info v body small reads =
      let e1 : (7 * 32 + info) / 32 ≡ 7 = omega arith in
      let e2 : (7 * 32 + info) % 32 ≡ info = omega arith in
      record {
        reads = λ rest at room.
            let on : at + 1 + length body ≡ at + suc (length body) = omega arith in
            rw (e1, e2)
              (reads rest (at + 1) (omega (arith, room)) ∙ ap (λ k. ok (v, cursor rest k)) on);
        pos = omega arith;
      }

  pub constant-reads :
      (levels info : ℕ) (v : Ipld C)
      → info < 32
      → ((r : Reader) → simple info r ≡ ok (v, r))
      → IsReadBack (Decode.item crate (suc levels)) v ((7 * 32 + info) ∷ [])
  constant-reads levels info v small reads = simple-reads levels info v [] small (λ rest at room.
      let stays : at ≡ at + 0 = omega arith in
      reads (cursor rest at) ∙ ap (λ k. ok (v, cursor rest k)) stays)

  pub float-reads :
      (levels f : ℕ) (used : Bytes)
      → f < 2 ^ 64
      → f ≢ 2 ^ 63
      → Encode.float f ≡ ok used
      → IsReadBack (Decode.item crate (suc levels)) (Ipld.float f) used
  unfolding Encode.float simple
  float-reads levels f used small other h =
      let (_, finite, h1) = >>=-eq-ok (ensure (Float.is_finite f) CodecError.invalid_float) _ h in
      let is_finite = ensure-eq-ok (Float.is_finite f) CodecError.invalid_float finite in
      let (kept, taken) = float_kept f small other in
      let same : 0xfb ∷ to_be_bytes 8 f ≡ used =
        ap (λ k. 0xfb ∷ to_be_bytes 8 k) (sym kept) ∙ ok-injective h1 in
      let raw = to_be_bytes 8 f in
      let size : length raw ≡ 8 = length-to_be_bytes 8 f in
      subst (IsReadBack (Decode.item crate (suc levels)) (Ipld.float f)) same (
        simple-reads levels 27 (Ipld.float f) raw (omega arith) (λ rest at room.
          subst
            (λ n.
              Path (Result CodecError (Ipld C × Reader))
                (take_bytes n (cursor (raw ++ rest) at) >>= λ x.
                  float_value (from_be_bytes 0 x.0) x.1)
                (ok (Ipld.float f, cursor rest (at + length raw))))
            size
            (rw (reads_take raw rest at room) (
              rw (from_be_bytes-to_be_bytes 8 f (omega (arith, small)))
                (rw (is_finite, taken) refl)))))
