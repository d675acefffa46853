-- ===== src/Codec/Canonical/Maps.antt =====
-- src/codec: the order of a map that was read.
use pq_ucan.Base.{
  ℕ, suc, ◌/◌, ◌%◌, ◌==◌, ◌≡◌, sym, subst, true, false, Bool-cases, inl, inr, [], ◌∷◌, pos, negsuc,
  Bytes, All, Result, ok, ◌>>=◌, >>=-eq-ok, ok-injective, ◌+◌, ◌&&◌, not, arith,
}
use pq_ucan.Cid.{CidCrate}
use pq_ucan.Codec.{CodecError, max_depth}
use pq_ucan.Codec.Canonical.Items.{item-eq-ok}
use pq_ucan.Codec.Canonical.Loops.{read_list-eq-ok, read_map-eq-ok}
use pq_ucan.Codec.Canonical.Values.{read_link-eq-ok}
use pq_ucan.Float
use pq_ucan.Codec.Decode
use pq_ucan.Codec.Decode.{
  key_bytes, by_major, headed, simple, float_value, read_list, read_map, read_link, bytes_value,
  text_value, value,
}
use pq_ucan.Codec.Encode
use pq_ucan.Codec.Heads.{IsByte, cursor}
use pq_ucan.Codec.Heads.Inverse.{Written, head-eq-ok}
use pq_ucan.Codec.Order.{byte_order}
use pq_ucan.Codec.Reader
use pq_ucan.Codec.Reader.{Reader, Head, take_bytes, text_of, from_be_bytes}
use pq_ucan.Codec.Sorted.{IsSorted}
use pq_ucan.Ipld.{Ipld, entries, entries-of_entries}

module _ {C : Type 0} where
  -- A map at the top is in the order of its keys.
  abbrev pub HasOrder : Ipld C → Type 0
  HasOrder (Ipld.map fs) = IsSorted key_bytes byte_order (entries fs)
  HasOrder _ = Unit

  -- A value of another kind, at the end of a chain.
  made :
      {A : Type 0} (chain : Result CodecError A) (next : A → Ipld C × Reader) (v : Ipld C)
      (r : Reader)
      → ((a : A) → HasOrder (next a).0)
      → (chain >>= λ a. ok (next a)) ≡ ok (v, r)
      → HasOrder v
  made chain next v r other h =
      let (a, _, h1) = >>=-eq-ok chain (λ a. ok (next a)) h in
      subst (λ (p : Ipld C × Reader). HasOrder p.0) (ok-injective h1) (other a)

  -- A value that is there without reading on.
  ready :
      (first v : Ipld C) (r0 r : Reader)
      → HasOrder first
      → Path (Result CodecError (Ipld C × Reader)) (ok (first, r0)) (ok (v, r))
      → HasOrder v
  ready first v r0 r other h = subst (λ (p : Ipld C × Reader). HasOrder p.0) (ok-injective h) other

  float-HasOrder : (f : ℕ) (v : Ipld C) (r0 r : Reader) → float_value f r0 ≡ ok (v, r) → HasOrder v
  float-HasOrder f v r0 r h =
      elim (Bool-cases (Float.is_finite f && not (Float.eq f 0 && Float.is_sign_negative f))) [
        | inl taken ↦ ready (Ipld.float f) v r0 r tt (rw taken at h)
        | inr refused ↦ ground arith
      ]

  simple-HasOrder :
      (info : ℕ) (v : Ipld C) (r0 r : Reader) → simple info r0 ≡ ok (v, r) → HasOrder v
  unfolding simple
  simple-HasOrder info v r0 r h = elim (Bool-cases (info == 20)) [
    | inl i20 ↦ ready (Ipld.bool false) v r0 r tt (rw i20 at h)
    | inr n20 ↦ elim (Bool-cases (info == 21)) [
      | inl i21 ↦ ready (Ipld.bool true) v r0 r tt (rw (n20, i21) at h)
      | inr n21 ↦ elim (Bool-cases (info == 22)) [
        | inl i22 ↦ ready Ipld.null v r0 r tt (rw (n20, n21, i22) at h)
        | inr n22 ↦ elim (Bool-cases (info == 27)) [
          | inl i27 ↦
              let ((raw, r1), _, h1) =
                >>=-eq-ok (take_bytes 8 r0) (λ p. float_value (from_be_bytes 0 p.0) p.1)
                  (rw (n20, n21, n22, i27) at h) in
              float-HasOrder (from_be_bytes 0 raw) v r1 r h1
          | inr n27 ↦ ground arith
        ]
      ]
    ]
  ]

module _ {C : Type 0} (crate : CidCrate C) where
  by_major-HasOrder :
      (levels m n : ℕ) (v : Ipld C) (r0 r1 r : Reader)
      → All IsByte r0.rest
      → Written r0.rest (record { major = m; arg = n }) r1
      → by_major crate (Decode.item crate levels) (record { major = m; arg = n }) r1 ≡ ok (v, r)
      → HasOrder v
  unfolding by_major
  by_major-HasOrder levels m n v r0 r1 r all head h = elim (Bool-cases (m == 0)) [
    | inl m0 ↦ ready (Ipld.integer (pos n)) v r1 r tt (rw m0 at h)
    | inr o0 ↦ elim (Bool-cases (m == 1)) [
      | inl m1 ↦ ready (Ipld.integer (negsuc n)) v r1 r tt (rw (o0, m1) at h)
      | inr o1 ↦ elim (Bool-cases (m == 2)) [
        | inl m2 ↦
            made (take_bytes n r1) (λ x. (Ipld.bytes x.0, x.1)) v r (λ x. tt) (rw (o0, o1, m2) at h)
        | inr o2 ↦ elim (Bool-cases (m == 3)) [
          | inl m3 ↦
              made (text_of n r1) (λ x. (Ipld.string x.0, x.1)) v r (λ x. tt)
                (rw (o0, o1, o2, m3) at h)
          | inr o3 ↦ elim (Bool-cases (m == 4)) [
            | inl m4 ↦
                let is : m ≡ 4 = ground arith in
                let (vs, same, _) =
                  read_list-eq-ok (Decode.item crate levels) (Encode.item crate levels)
                    (item-eq-ok crate levels) n v r0 r1 r all
                    (subst (λ k. Written r0.rest (record { major = k; arg = n }) r1) is head)
                    (rw (o0, o1, o2, o3, m4) at h) in
                subst HasOrder same tt
            | inr o4 ↦ elim (Bool-cases (m == 5)) [
              | inl m5 ↦
                  let is : m ≡ 5 = ground arith in
                  let (es, same, sorted, _) =
                    read_map-eq-ok (Decode.item crate levels) (Encode.item crate levels)
                      (item-eq-ok crate levels) n v r0 r1 r all
                      (subst (λ k. Written r0.rest (record { major = k; arg = n }) r1) is head)
                      (rw (o0, o1, o2, o3, o4, m5) at h) in
                  subst HasOrder same
                    (subst (IsSorted key_bytes byte_order) (sym (entries-of_entries es)) sorted)
              | inr o5 ↦
                  let m6 : m == 6 ≡ true = ground (arith, head.major_bound) in
                  let is : m ≡ 6 = ground arith in
                  let (c, same, _) =
                    read_link-eq-ok crate n v r0 r1 r all
                      (subst (λ k. Written r0.rest (record { major = k; arg = n }) r1) is head)
                      (rw (o0, o1, o2, o3, o4, o5, m6) at h) in
                  subst HasOrder same tt
            ]
          ]
        ]
      ]
    ]
  ]

  item-HasOrder :
      (levels : ℕ) (u : Bytes) (at : ℕ) (v : Ipld C) (r : Reader)
      → All IsByte u
      → Decode.item crate (suc levels) (cursor u at) ≡ ok (v, r)
      → HasOrder v
  unfolding Decode.item
  item-HasOrder levels [] at v r all h = cc
  item-HasOrder levels (b ∷ bs) at v r all h = elim (Bool-cases (b / 32 == 7)) [
    | inl constant ↦ simple-HasOrder (b % 32) v (cursor bs (at + 1)) r (rw constant at h)
    | inr other ↦
        let ((found, r1), read, h1) =
          >>=-eq-ok (Reader.head (cursor (b ∷ bs) at)) _ (rw other at h) in
        by_major-HasOrder levels found.major found.arg v (cursor (b ∷ bs) at) r1 r all
          (head-eq-ok at (b ∷ bs) found r1 all read) h1
  ]

  pub value-HasOrder :
      (r0 r : Reader) (v : Ipld C) → All IsByte r0.rest → value crate r0 ≡ ok (v, r) → HasOrder v
  value-HasOrder r0 r v all h = item-HasOrder max_depth r0.rest r0.pos v r all h
