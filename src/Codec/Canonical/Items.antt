-- ===== src/Codec/Canonical/Items.antt =====
-- src/codec: one item, and a whole input.
use pq_ucan.Base.{
  ℕ, zero, suc, ◌+◌, ◌/◌, ◌≡◌, refl, sym, ap, subst, ◌∙◌, true, ◌==◌, pos, negsuc, [], ◌∷◌, ◌++◌,
  append-nil, length, Bytes, All, arith, ok, >>=-eq-ok, ok-injective, ensure, ensure-eq-ok,
  Bool-cases, inl, inr,
}
use pq_ucan.Cid.{CidCrate}
use pq_ucan.Ipld.{Ipld}
use pq_ucan.Codec.{max_depth, trailing_bytes}
use pq_ucan.Codec.Canonical.{Used}
use pq_ucan.Codec.Decode
use pq_ucan.Codec.Decode.{
  cid_tag, cid_multibase_identity, split_first, link_error, read_link, bytes_value, text_value,
  by_major, headed, simple, float_value, decode, read_list, read_map,
}
use pq_ucan.Codec.Encode
use pq_ucan.Codec.Encode.{to_be_bytes, encode, write_list, write_map}
use pq_ucan.Codec.Heads.{IsByte, cursor}
use pq_ucan.Codec.Heads.Inverse.{Written, head-eq-ok}
use pq_ucan.Codec.Reader
use pq_ucan.Codec.Reader.{
  Reader, Read, Head, take_bytes, from_be_bytes, read_bytes, text_of, start, finish,
}
use pq_ucan.Codec.Canonical.Simple.{simple-eq-ok}
use pq_ucan.Codec.Canonical.Values.{
  Rereads, number, bytes_value-eq-ok, text_value-eq-ok, collection-eq-ok, map-eq-ok, link-eq-ok,
  integer_written,
}

module _ {C : Type 0} (crate : CidCrate C) where
  by_major-eq-ok :
      (levels : ℕ)
      → Rereads crate levels
      → (m n : ℕ) (v : Ipld C) (r0 r1 r : Reader) → All IsByte r0.rest
      → Written r0.rest (record { major = m; arg = n }) r1
      → by_major crate (Decode.item crate levels) (record { major = m; arg = n }) r1 ≡ ok (v, r)
      → Used r0.rest r (Encode.item crate (suc levels) v)
  unfolding by_major
  by_major-eq-ok levels each m n v r0 r1 r all head h =
      let written = integer_written crate levels n head.arg_bound in
      elim (Bool-cases (m == 0)) [
        | inl m0 ↦
            number crate levels 0 n (Ipld.integer (pos n)) v r0 r1 r (moved m 0 m0 head) written.0
              (rw m0 at h)
        | inr o0 ↦ elim (Bool-cases (m == 1)) [
          | inl m1 ↦
              number crate levels 1 n (Ipld.integer (negsuc n)) v r0 r1 r (moved m 1 m1 head)
                written.1 (rw (o0, m1) at h)
          | inr o1 ↦ elim (Bool-cases (m == 2)) [
            | inl m2 ↦
                bytes_value-eq-ok crate levels n v r0 r1 r (moved m 2 m2 head)
                  (rw (o0, o1, m2) at h)
            | inr o2 ↦ elim (Bool-cases (m == 3)) [
              | inl m3 ↦
                  text_value-eq-ok crate levels n v r0 r1 r (moved m 3 m3 head)
                    (rw (o0, o1, o2, m3) at h)
              | inr o3 ↦ elim (Bool-cases (m == 4)) [
                | inl m4 ↦
                    collection-eq-ok crate levels each n v r0 r1 r all (moved m 4 m4 head)
                      (rw (o0, o1, o2, o3, m4) at h)
                | inr o4 ↦ elim (Bool-cases (m == 5)) [
                  | inl m5 ↦
                      map-eq-ok crate levels each n v r0 r1 r all (moved m 5 m5 head)
                        (rw (o0, o1, o2, o3, o4, m5) at h)
                  | inr o5 ↦
                      let m6 : m == 6 ≡ true = ground (arith, head.major_bound) in
                      link-eq-ok crate levels n v r0 r1 r all (moved m 6 m6 head)
                        (rw (o0, o1, o2, o3, o4, o5, m6) at h)
                ]
              ]
            ]
          ]
        ]
      ]
    where
      moved :
          (m k : ℕ) {n : ℕ} {u : Bytes} {r : Reader}
          → m == k ≡ true
          → Written u (record { major = m; arg = n }) r
          → Written u (record { major = k; arg = n }) r
      moved m k {n} {u} {r} e w =
          let is : m ≡ k = ground arith in
          subst (λ j. Written u (record { major = j; arg = n }) r) is w

  pub item-eq-ok : (levels : ℕ) → Rereads crate levels
  unfolding Decode.item
  item-eq-ok zero v r0 r all h = cc
  item-eq-ok (suc levels) v r0 r all h =
      by_first levels (item-eq-ok levels) r0.rest r0.pos v r all h
    where
      by_first :
          (levels : ℕ)
          → Rereads crate levels
          → (u : Bytes) (at : ℕ) (v : Ipld C) (r : Reader) → All IsByte u
          → Decode.item crate (suc levels) (cursor u at) ≡ ok (v, r)
          → Used u r (Encode.item crate (suc levels) v)
      by_first levels each [] at v r all h = cc
      by_first levels each (b ∷ bs) at v r all h = elim (Bool-cases (b / 32 == 7)) [
        | inl constant ↦
            let is : b / 32 ≡ 7 = ground arith in
            simple-eq-ok b (at + 1) bs v r all is (rw constant at h) crate levels
        | inr other ↦
            let ((found, r1), read, h1) =
              >>=-eq-ok (Reader.head (cursor (b ∷ bs) at)) _ (rw other at h) in
            by_major-eq-ok levels each found.major found.arg v (cursor (b ∷ bs) at) r1 r all
              (head-eq-ok at (b ∷ bs) found r1 all read) h1
      ]

  -- If `decode` takes some bytes, then `encode` writes exactly these bytes for the value.
  pub encode-decode :
      (bs : Bytes) (v : Ipld C) → All IsByte bs → decode crate bs ≡ ok v → encode crate v ≡ ok bs
  unfolding decode encode finish
  encode-decode bs v all h =
      let ((w, r), read, h1) = >>=-eq-ok (Decode.item crate (max_depth + 1) (start bs)) _ h in
      let (_, ended, h2) = >>=-eq-ok (ensure (length r.rest == 0) trailing_bytes) _ h1 in
      let used = item-eq-ok (max_depth + 1) w (start bs) r all read in
      let done = nil_of_length r.rest (ensure-eq-ok (length r.rest == 0) trailing_bytes ended) in
      ap (λ k. encode crate k) (sym (ok-injective h2))
      ∙ used.same
      ∙ sym (ap ok (used.split ∙ ap (λ l. used.part ++ l) done ∙ append-nil used.part))
    where
      nil_of_length : (l : Bytes) → length l == 0 ≡ true → l ≡ []
      nil_of_length [] h = refl
      nil_of_length (x ∷ l) h = ground arith
