-- ===== src/Codec/Stable.antt =====
-- src/codec: the values that come back from the codec as they were.
use pq_ucan.Base.{◌^◌, ◌≡◌, ◌≢◌, ◌<◌, some, IsScalar, All}
use pq_ucan.Cid.{CidCrate}
use pq_ucan.Codec.Decode.{key_bytes}
use pq_ucan.Codec.Order.{byte_order}
use pq_ucan.Codec.Sorted.{IsSorted}
use pq_ucan.Ipld.{Ipld, Items, Fields, nil, cons, end, field, entries}

-- A value that is read back as it is: texts are Unicode, the keys of a map are in its order, a float
-- has 64 bits and is not -0.0, and the crate of CIDs reads back the bytes of a link.
abbrev mutual
  pub IsStable : {C : Type 0} → CidCrate C → Ipld C → Type 0
  IsStable crate Ipld.null = Unit
  IsStable crate (Ipld.bool b) = Unit
  IsStable crate (Ipld.integer i) = Unit
  IsStable crate (Ipld.float f) = (f < 2 ^ 64) × (f ≢ 2 ^ 63)
  IsStable crate (Ipld.string s) = All IsScalar s
  IsStable crate (Ipld.bytes b) = Unit
  IsStable crate (Ipld.list vs) = AreStable crate vs
  IsStable crate (Ipld.map fs) =
      IsSorted key_bytes byte_order (entries fs) × AreStableFields crate fs
  IsStable crate (Ipld.link c) = crate.try_bytes (crate.to_bytes c) ≡ some c

  pub AreStable : {C : Type 0} → CidCrate C → Items C → Type 0
  AreStable crate nil = Unit
  AreStable crate (cons v vs) = IsStable crate v × AreStable crate vs

  pub AreStableFields : {C : Type 0} → CidCrate C → Fields C → Type 0
  AreStableFields crate end = Unit
  AreStableFields crate (field k v fs) =
      All IsScalar k × IsStable crate v × AreStableFields crate fs
