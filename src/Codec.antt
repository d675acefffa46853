-- ===== src/Codec.antt =====
-- src/codec/mod.rs: the errors of the codecs, and the nesting limit.
pub mod Order
pub mod Sorted
pub mod Reader
pub mod Decode
pub mod Encode
pub mod Heads
pub mod Canonical
pub mod Readback
pub mod Varint
pub mod Stable
use pq_ucan.Base.{ℕ}

abbrev pub max_depth : ℕ
max_depth = 128

pub data CodecError : Type 0 where
  unexpected_end trailing_bytes indefinite_length non_minimal_integer : CodecError
  integer_out_of_range invalid_float invalid_utf8 non_string_key unsorted_keys : CodecError
  duplicate_key : CodecError
  unsupported_tag : ℕ → CodecError
  invalid_cid unsupported_simple reserved nesting_too_deep length_too_large : CodecError
  invalid_varint unexpected_type invalid_json not_canonical float_in_text : CodecError
  reserved_key invalid_base64 : CodecError
