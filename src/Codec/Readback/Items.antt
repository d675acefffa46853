-- ===== src/Codec/Readback/Items.antt =====
-- src/codec: one item, and a whole value, written and read back.
use pq_ucan.Base.{
  ℕ, zero, suc, ◌+◌, ◌^◌, ◌≡◌, ◌<◌, refl, sym, ap, subst, ◌∙◌, true, false, pos, negsuc, [], ◌++◌,
  append-nil, some, length, Bytes, IsScalar, All, arith, ok, >>=-eq-ok, ok-injective, ok_or,
  ok_or-eq-ok,
}
use pq_ucan.Cid.{CidCrate}
use pq_ucan.Ipld.{Ipld, Items, Fields, nil, cons, end, field, to_list, entries}
use pq_ucan.Codec.{max_depth, integer_out_of_range}
use pq_ucan.Codec.Decode
use pq_ucan.Codec.Decode.{
  Entry, key_bytes, cid_tag, cid_multibase_identity, split_first, link_error, read_link,
  bytes_value, text_value, by_major, headed, simple, float_value, decode, read_list, read_map,
}
use pq_ucan.Codec.Encode
use pq_ucan.Codec.Encode.{to_be_bytes, to_u64, encode, write_list, write_map}
use pq_ucan.Codec.Heads.{cursor}
use pq_ucan.Codec.Readback.Loops.{IsReadBack, IsCollection, list-IsCollection, map-IsCollection}
use pq_ucan.Codec.Reader.{Reader, Read, start, finish}
use pq_ucan.Codec.Stable.{IsStable, AreStable, AreStableFields}
use pq_ucan.Codec.Readback.Values.{
  integer-reads, string-reads, bytes-reads, link-reads, constant-reads, float-reads, headed-reads,
}

to_u64-eq-some : (n m : ℕ) → to_u64 n ≡ some m → (n ≡ m) × (n < 2 ^ 64)
to_u64-eq-some n m h = ground arith

module _ {C : Type 0} (crate : CidCrate C) where
  AreStable-All : (vs : Items C) → AreStable crate vs → All (IsStable crate) (to_list vs)
  AreStable-All nil s = tt
  AreStable-All (cons v vs) s = (s.0, AreStable-All vs s.1)

  AreStableFields-All :
      (fs : Fields C)
      → AreStableFields crate fs
      → All (λ (e : Entry C). All IsScalar e.0 × IsStable crate e.1) (entries fs)
  AreStableFields-All end s = tt
  AreStableFields-All (field k v fs) s = ((s.0, s.1), AreStableFields-All fs s.2)

  IsReadBack-collection :
      (levels major : ℕ) (reader : ℕ → Read (Ipld C)) (v : Ipld C) (used : Bytes)
      → major < 7
      → ((n : ℕ) (r : Reader)
          → by_major crate (Decode.item crate levels) (record { major = major; arg = n }) r
            ≡ reader n r)
      → IsCollection major reader v used
      → IsReadBack (Decode.item crate (suc levels)) v used
  IsReadBack-collection levels major reader v used small by h =
      subst (IsReadBack (Decode.item crate (suc levels)) v) h.same (
        headed-reads crate levels major h.count v h.body small
          (λ bound. omega (arith, h.fits, bound))
          (λ rest at room. by h.count (cursor (h.body ++ rest) at) ∙ h.reads rest at room))

  item-reads :
      (levels : ℕ) (v : Ipld C) (used : Bytes)
      → IsStable crate v
      → Encode.item crate levels v ≡ ok used
      → IsReadBack (Decode.item crate levels) v used
  unfolding Encode.item Encode.integer simple by_major
  item-reads zero v used stable h = cc
  item-reads (suc levels) Ipld.null used stable h =
      subst (IsReadBack (Decode.item crate (suc levels)) Ipld.null) (ok-injective h)
        (constant-reads crate levels 22 Ipld.null (omega arith) (λ r. refl))
  item-reads (suc levels) (Ipld.bool false) used stable h =
      subst (IsReadBack (Decode.item crate (suc levels)) (Ipld.bool false)) (ok-injective h)
        (constant-reads crate levels 20 (Ipld.bool false) (omega arith) (λ r. refl))
  item-reads (suc levels) (Ipld.bool true) used stable h =
      subst (IsReadBack (Decode.item crate (suc levels)) (Ipld.bool true)) (ok-injective h)
        (constant-reads crate levels 21 (Ipld.bool true) (omega arith) (λ r. refl))
  item-reads (suc levels) (Ipld.integer (pos n)) used stable h =
      let (m, fits, h1) = >>=-eq-ok (ok_or (to_u64 n) integer_out_of_range) _ h in
      let (is, small) = to_u64-eq-some n m (ok_or-eq-ok (to_u64 n) integer_out_of_range fits) in
      subst (IsReadBack (Decode.item crate (suc levels)) (Ipld.integer (pos n)))
        (ap (Encode.head 0) is ∙ ok-injective h1) (integer-reads crate levels n small).0
  item-reads (suc levels) (Ipld.integer (negsuc n)) used stable h =
      let (m, fits, h1) = >>=-eq-ok (ok_or (to_u64 n) integer_out_of_range) _ h in
      let (is, small) = to_u64-eq-some n m (ok_or-eq-ok (to_u64 n) integer_out_of_range fits) in
      subst (IsReadBack (Decode.item crate (suc levels)) (Ipld.integer (negsuc n)))
        (ap (Encode.head 1) is ∙ ok-injective h1) (integer-reads crate levels n small).1
  item-reads (suc levels) (Ipld.float f) used stable h =
      float-reads crate levels f used stable.0 stable.1 h
  item-reads (suc levels) (Ipld.string s) used stable h =
      subst (IsReadBack (Decode.item crate (suc levels)) (Ipld.string s)) (ok-injective h)
        (string-reads crate levels s stable)
  item-reads (suc levels) (Ipld.bytes b) used stable h =
      subst (IsReadBack (Decode.item crate (suc levels)) (Ipld.bytes b)) (ok-injective h)
        (bytes-reads crate levels b)
  item-reads (suc levels) (Ipld.list vs) used stable h =
      IsReadBack-collection levels 4 (read_list (Decode.item crate levels)) (Ipld.list vs) used
        (omega arith) (λ n r. refl)
        (list-IsCollection (Decode.item crate levels) (Encode.item crate levels) (IsStable crate)
          (item-reads levels) vs used (AreStable-All vs stable) h)
  item-reads (suc levels) (Ipld.map fs) used stable h =
      IsReadBack-collection levels 5 (read_map (Decode.item crate levels)) (Ipld.map fs) used
        (omega arith) (λ n r. refl)
        (map-IsCollection (Decode.item crate levels) (Encode.item crate levels) (IsStable crate)
          (item-reads levels) fs used (AreStableFields-All fs stable.1) stable.0 h)
  item-reads (suc levels) (Ipld.link c) used stable h =
      subst (IsReadBack (Decode.item crate (suc levels)) (Ipld.link c)) (ok-injective h)
        (link-reads crate levels c stable)

  -- What `encode` writes for a value that is stable, in fewer than 2^63 bytes, `decode` reads back as
  -- this value.
  pub decode-encode :
      (v : Ipld C) (bs : Bytes)
      → IsStable crate v
      → encode crate v ≡ ok bs
      → length bs < 2 ^ 63
      → decode crate bs ≡ ok v
  unfolding decode encode finish
  decode-encode v bs stable h small =
      let whole : cursor (bs ++ []) 0 ≡ start bs = ap (λ l. cursor l 0) (append-nil bs) in
      let read = (item-reads (max_depth + 1) v bs stable h).reads [] 0 (omega (arith, small)) in
      rw (ap (Decode.item crate (max_depth + 1)) (sym whole) ∙ read) refl
