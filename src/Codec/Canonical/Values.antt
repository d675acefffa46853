-- ===== src/Codec/Canonical/Values.antt =====
-- src/codec: the values of each major type, read and written.
use pq_ucan.Base.{
  ℕ, suc, ◌+◌, ◌^◌, ◌≡◌, ◌<◌, refl, sym, ap, subst, ap₂, ◌∙◌, ◌==◌, pos, negsuc, [], ◌∷◌, ◌++◌,
  some, length, Bytes, All, arith, Result, ok, >>=-eq-ok, ok-injective, ok_or, ok_or-eq-ok, map_err,
  map_err_iff, ensure, ensure-eq-ok,
}
use pq_ucan.Cid.{CidCrate, from_bytes, from_bytes-eq-ok}
use pq_ucan.Ipld.{Ipld, entries-of_entries}
use pq_ucan.Codec.{CodecError, invalid_cid, unsupported_tag}
use pq_ucan.Codec.Canonical.{Used, parts, bytes_left, behind_head, read_bytes-eq-ok, text_of-eq-ok}
use pq_ucan.Codec.Canonical.Loops.{read_list-eq-ok, read_map-eq-ok}
use pq_ucan.Codec.Decode
use pq_ucan.Codec.Decode.{
  cid_tag, cid_multibase_identity, split_first, link_error, read_link, bytes_value, text_value,
  by_major, headed, simple, float_value, decode, read_list, read_map,
}
use pq_ucan.Codec.Encode
use pq_ucan.Codec.Encode.{to_be_bytes, encode, write_list, write_map}
use pq_ucan.Codec.Heads.{IsByte}
use pq_ucan.Codec.Heads.Inverse.{Written}
use pq_ucan.Codec.Reader.{Reader, take_bytes, read_bytes, text_of}

split_first-eq-some :
    (raw : Bytes) (b : ℕ) (bs : Bytes) → split_first raw ≡ some (b, bs) → raw ≡ b ∷ bs
split_first-eq-some [] b bs h = cc
split_first-eq-some (x ∷ xs) b bs h = cc

module _ {C : Type 0} (crate : CidCrate C) where
  pub read_link-eq-ok :
      (n : ℕ) (v : Ipld C) (r0 r1 r : Reader)
      → All IsByte r0.rest
      → Written r0.rest (record { major = 6; arg = n }) r1
      → read_link crate n r1 ≡ ok (v, r)
      → (c : C) × (Ipld.link c ≡ v) × (r0.rest ≡ Encode.link crate c ++ r.rest)
  unfolding read_link Encode.link Encode.bytes
  read_link-eq-ok n v r0 r1 r all head h =
      let (_, tagged, h1) = >>=-eq-ok (ensure (n == cid_tag) (unsupported_tag n)) _ h in
      let tag : n ≡ cid_tag =
        ground (arith, ensure-eq-ok (n == cid_tag) (unsupported_tag n) tagged) in
      let ((raw, r2), read, h2) = >>=-eq-ok (map_err link_error (read_bytes r1)) _ h1 in
      let ((prefix, cid), front, h3) = >>=-eq-ok (ok_or (split_first raw) invalid_cid) _ h2 in
      let (_, identity, h4) =
        >>=-eq-ok (ensure (prefix == cid_multibase_identity) invalid_cid) _ h3 in
      let (c, found, h5) = >>=-eq-ok (map_err (λ e. invalid_cid) (from_bytes crate cid)) _ h4 in
      let same : (Ipld.link c, r2) ≡ (v, r) = ok-injective h5 in
      let end : r2 ≡ r = ap (λ (p : Ipld C × Reader). p.1) same in
      let zero_first : prefix ≡ 0 =
        ground (arith, ensure-eq-ok (prefix == cid_multibase_identity) invalid_cid identity) in
      let inner : crate.to_bytes c ≡ cid =
        from_bytes-eq-ok crate cid c
          ((map_err_iff (λ e. invalid_cid) (from_bytes crate cid) c).0 found) in
      let whole : raw ≡ 0 ∷ crate.to_bytes c =
        split_first-eq-some raw prefix cid (ok_or-eq-ok (split_first raw) invalid_cid front)
        ∙ ap₂ (λ p l. p ∷ l) zero_first (sym inner) in
      let left = bytes_left r0.rest (Encode.head 6 n) r1.rest head.split all in
      let body =
        read_bytes-eq-ok raw r1 r2 left
          ((map_err_iff link_error (read_bytes r1) (raw, r2)).0 read) in
      let longer : suc (length (crate.to_bytes c)) ≡ length (crate.to_bytes c) + 1 = omega arith in
      (
        c,
        ap (λ (p : Ipld C × Reader). p.0) same,
        parts r0.rest r1.rest (Encode.head 6 cid_tag) _ r.rest
            (head.split ∙ ap (λ k. Encode.head 6 k ++ r1.rest) tag)
            (body
              ∙ ap₂ (λ l e. Encode.bytes l ++ e.rest) whole end
              ∙ ap (λ k. (Encode.head 2 k ++ 0 ∷ crate.to_bytes c) ++ r.rest) longer),
      )

  pub number :
      (levels major n : ℕ) (first v : Ipld C) (r0 r1 r : Reader)
      → Written r0.rest (record { major = major; arg = n }) r1
      → Encode.item crate (suc levels) first ≡ ok (Encode.head major n)
      → Path (Result CodecError (Ipld C × Reader)) (ok (first, r1)) (ok (v, r))
      → Used r0.rest r (Encode.item crate (suc levels) v)
  number levels major n first v r0 r1 r head same h =
      let equal : (first, r1) ≡ (v, r) = ok-injective h in
      subst (λ (p : Ipld C × Reader). Used r0.rest p.1 (Encode.item crate (suc levels) p.0)) equal
        record { part = Encode.head major n; split = head.split; same = same }

  pub bytes_value-eq-ok :
      (levels n : ℕ) (v : Ipld C) (r0 r1 r : Reader)
      → Written r0.rest (record { major = 2; arg = n }) r1
      → bytes_value crate n r1 ≡ ok (v, r)
      → Used r0.rest r (Encode.item crate (suc levels) v)
  unfolding Encode.item Encode.bytes
  bytes_value-eq-ok levels n v r0 r1 r head h =
      let ((raw, r2), taken, h1) = >>=-eq-ok (take_bytes n r1) _ h in
      let same : (Ipld.bytes raw, r2) ≡ (v, r) = ok-injective h1 in
      subst (λ (p : Ipld C × Reader). Used r0.rest p.1 (Encode.item crate (suc levels) p.0)) same
        record {
          part = Encode.bytes raw;
          split = behind_head 2 n raw r0 r1 r2 head taken;
          same = refl;
        }

  pub text_value-eq-ok :
      (levels n : ℕ) (v : Ipld C) (r0 r1 r : Reader)
      → Written r0.rest (record { major = 3; arg = n }) r1
      → text_value crate n r1 ≡ ok (v, r)
      → Used r0.rest r (Encode.item crate (suc levels) v)
  unfolding Encode.item
  text_value-eq-ok levels n v r0 r1 r head h =
      let ((s, r2), read, h1) = >>=-eq-ok (text_of n r1) _ h in
      let same : (Ipld.string s, r2) ≡ (v, r) = ok-injective h1 in
      subst (λ (p : Ipld C × Reader). Used r0.rest p.1 (Encode.item crate (suc levels) p.0)) same
        record { part = Encode.text s; split = text_of-eq-ok n s r0 r1 r2 head read; same = refl }

  -- The reader one level down gives back what is written one level down.
  abbrev pub Rereads : ℕ → Type 0
  Rereads levels =
      (v : Ipld C) (r0 r : Reader)
      → All IsByte r0.rest
      → Decode.item crate levels r0 ≡ ok (v, r)
      → Used r0.rest r (Encode.item crate levels v)

  pub collection-eq-ok :
      (levels : ℕ)
      → Rereads levels
      → (n : ℕ) (v : Ipld C) (r0 r1 r : Reader) → All IsByte r0.rest
      → Written r0.rest (record { major = 4; arg = n }) r1
      → read_list (Decode.item crate levels) n r1 ≡ ok (v, r)
      → Used r0.rest r (Encode.item crate (suc levels) v)
  unfolding Encode.item
  collection-eq-ok levels each n v r0 r1 r all head h =
      let (vs, same, used) =
        read_list-eq-ok (Decode.item crate levels) (Encode.item crate levels) each n v r0 r1 r all
          head h in
      subst (λ k. Used r0.rest r (Encode.item crate (suc levels) k)) same used

  pub map-eq-ok :
      (levels : ℕ)
      → Rereads levels
      → (n : ℕ) (v : Ipld C) (r0 r1 r : Reader) → All IsByte r0.rest
      → Written r0.rest (record { major = 5; arg = n }) r1
      → read_map (Decode.item crate levels) n r1 ≡ ok (v, r)
      → Used r0.rest r (Encode.item crate (suc levels) v)
  unfolding Encode.item
  map-eq-ok levels each n v r0 r1 r all head h =
      let (m, same, _, used) =
        read_map-eq-ok (Decode.item crate levels) (Encode.item crate levels) each n v r0 r1 r all
          head h in
      subst (λ k. Used r0.rest r (Encode.item crate (suc levels) k)) same
        (subst (λ es. Used r0.rest r (write_map (Encode.item crate levels) es))
          (sym (entries-of_entries m)) used)

  pub link-eq-ok :
      (levels n : ℕ) (v : Ipld C) (r0 r1 r : Reader)
      → All IsByte r0.rest
      → Written r0.rest (record { major = 6; arg = n }) r1
      → read_link crate n r1 ≡ ok (v, r)
      → Used r0.rest r (Encode.item crate (suc levels) v)
  unfolding Encode.item
  link-eq-ok levels n v r0 r1 r all head h =
      let (c, same, split) = read_link-eq-ok n v r0 r1 r all head h in
      subst (λ k. Used r0.rest r (Encode.item crate (suc levels) k)) same
        record { part = Encode.link crate c; split = split; same = refl }

  pub integer_written :
      (levels n : ℕ)
      → n < 2 ^ 64
      → (Encode.item crate (suc levels) (Ipld.integer (pos n)) ≡ ok (Encode.head 0 n))
        × (Encode.item crate (suc levels) (Ipld.integer (negsuc n)) ≡ ok (Encode.head 1 n))
  unfolding Encode.item Encode.integer
  integer_written levels n small = (ground arith, ground arith)
