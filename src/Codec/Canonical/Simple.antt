-- ===== src/Codec/Canonical/Simple.antt =====
-- src/codec: floats and the other simple values, read and written.
use pq_ucan.Base.{
  ℕ, suc, ◌/◌, ◌%◌, ◌≡◌, refl, sym, ap, subst, ◌∙◌, true, false, not, ◌&&◌, ◌==◌, [], ◌∷◌, ◌++◌,
  length, Bytes, All, arith, Result, ok, >>=-eq-ok, ok-injective, Bool-cases, inl, inr,
}
use pq_ucan.Cid.{CidCrate}
use pq_ucan.Ipld.{Ipld}
use pq_ucan.Codec.{CodecError}
use pq_ucan.Codec.Canonical.{Used}
use pq_ucan.Codec.Decode.{simple, float_value}
use pq_ucan.Codec.Encode
use pq_ucan.Codec.Encode.{to_be_bytes, encode, write_list, write_map}
use pq_ucan.Codec.Heads.{IsByte, cursor, take_bytes-eq-ok}
use pq_ucan.Codec.Heads.Inverse.{to_be_bytes-from_be_bytes, All-front}
use pq_ucan.Codec.Reader.{Reader, take_bytes, from_be_bytes}
use pq_ucan.Float

pub float_is_zero : (f : ℕ) → Float.eq f 0 ≡ true → Float.is_sign_negative f ≡ false → f ≡ 0
unfolding Float.eq Float.partial_cmp Float.is_nan
float_is_zero f e positive = ground arith

-- The eight bytes of a float that is taken.
float-written :
    (f : ℕ) (raw : Bytes)
    → All IsByte raw
    → length raw ≡ 8
    → from_be_bytes 0 raw ≡ f
    → Float.is_finite f && not (Float.eq f 0 && Float.is_sign_negative f) ≡ true
    → Encode.float f ≡ ok (0xfb ∷ raw)
unfolding Encode.float
float-written f raw all size is taken =
    let back : to_be_bytes 8 f ≡ raw =
      ap (to_be_bytes 8) (sym is) ∙ to_be_bytes-from_be_bytes 8 raw all size in
    elim (Bool-cases (Float.eq f 0)) [
      | inl zero_float ↦ elim (Bool-cases (Float.is_sign_negative f)) [
        | inl negative ↦ ground arith
        | inr positive ↦
            let none_set = float_is_zero f zero_float positive in
            let finite : Float.is_finite f ≡ true = ground arith in
            rw (finite, zero_float)
              (ap (λ l. ok (0xfb ∷ l)) (ap (to_be_bytes 8) (sym none_set) ∙ back))
      ]
      | inr other ↦
          let finite : Float.is_finite f ≡ true = ground arith in
          rw (finite, other) (ap (λ l. ok (0xfb ∷ l)) back)
    ]

module _ {C : Type 0} where
  constant :
      (b at : ℕ) (bs : Bytes) (first v : Ipld C) (r : Reader)
      (write : Ipld C → Result CodecError Bytes)
      → write first ≡ ok (b ∷ [])
      → Path (Result CodecError (Ipld C × Reader)) (ok (first, cursor bs at)) (ok (v, r))
      → Used (b ∷ bs) r (write v)
  constant b at bs first v r write same h =
      let equal : (first, cursor bs at) ≡ (v, r) = ok-injective h in
      subst (λ (p : Ipld C × Reader). Used (b ∷ bs) p.1 (write p.0)) equal
        record { part = b ∷ []; split = refl; same = same }

  float_value-eq-ok :
      (f : ℕ) (raw : Bytes) (r0 r1 r : Reader) (v : Ipld C)
      (write : Ipld C → Result CodecError Bytes)
      → r0.rest ≡ raw ++ r1.rest
      → All IsByte raw
      → length raw ≡ 8
      → from_be_bytes 0 raw ≡ f
      → write (Ipld.float f) ≡ Encode.float f
      → float_value f r1 ≡ ok (v, r)
      → Used (0xfb ∷ r0.rest) r (write v)
  float_value-eq-ok f raw r0 r1 r v write split all size is writes h =
      elim (Bool-cases (Float.is_finite f && not (Float.eq f 0 && Float.is_sign_negative f))) [
        | inl taken ↦
            let equal : (Ipld.float f, r1) ≡ (v, r) = ok-injective (rw taken at h) in
            subst (λ (p : Ipld C × Reader). Used (0xfb ∷ r0.rest) p.1 (write p.0)) equal
              record {
                part = 0xfb ∷ raw;
                split = ap (λ l. 0xfb ∷ l) split;
                same = writes ∙ float-written f raw all size is taken;
              }
        | inr refused ↦ ground arith
      ]

  pub simple-eq-ok :
      (b at : ℕ) (bs : Bytes) (v : Ipld C) (r : Reader)
      → All IsByte (b ∷ bs)
      → b / 32 ≡ 7
      → simple (b % 32) (cursor bs at) ≡ ok (v, r)
      → (crate : CidCrate C) (levels : ℕ) → Used (b ∷ bs) r (Encode.item crate (suc levels) v)
  unfolding simple Encode.item
  simple-eq-ok b at bs v r all is h crate levels = elim (Bool-cases (b % 32 == 20)) [
    | inl i20 ↦
        let known : b ≡ 0xf4 = ground arith in
        constant b at bs (Ipld.bool false) v r (Encode.item crate (suc levels)) (rw known refl)
          (rw i20 at h)
    | inr n20 ↦ elim (Bool-cases (b % 32 == 21)) [
      | inl i21 ↦
          let known : b ≡ 0xf5 = ground arith in
          constant b at bs (Ipld.bool true) v r (Encode.item crate (suc levels)) (rw known refl)
            (rw (n20, i21) at h)
      | inr n21 ↦ elim (Bool-cases (b % 32 == 22)) [
        | inl i22 ↦
            let known : b ≡ 0xf6 = ground arith in
            constant b at bs Ipld.null v r (Encode.item crate (suc levels)) (rw known refl)
              (rw (n20, n21, i22) at h)
        | inr n22 ↦ elim (Bool-cases (b % 32 == 27)) [
          | inl i27 ↦
              let known : b ≡ 0xfb = ground arith in
              let ((raw, r1), read, h1) =
                >>=-eq-ok (take_bytes 8 (cursor bs at)) (λ p. float_value (from_be_bytes 0 p.0) p.1)
                  (rw (n20, n21, n22, i27) at h) in
              let (split, size, _) = take_bytes-eq-ok 8 at bs raw r1 read in
              let raw_bytes = All-front IsByte raw r1.rest (subst (All IsByte) split all.1) in
              subst (λ k. Used (k ∷ bs) r (Encode.item crate (suc levels) v)) (sym known)
                (float_value-eq-ok (from_be_bytes 0 raw) raw (cursor bs at) r1 r v
                  (Encode.item crate (suc levels)) split raw_bytes size refl refl h1)
          | inr n27 ↦ ground arith
        ]
      ]
    ]
  ]
