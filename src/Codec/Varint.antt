-- ===== src/Codec/Varint.antt =====
-- src/codec/varint.rs: unsigned LEB128. `&`, `>>`, `|` and `<<` on bits that do not overlap are the
-- remainder, the quotient, the sum and the product.
pub mod RoundTrip
use pq_ucan.Base.{
  ℕ, zero, suc, ◌+◌, ◌*◌, ◌/◌, ◌%◌, ◌^◌, Bool, ltb, ◌==◌, ◌&&◌, if◌then◌else◌, List, [], ◌∷◌,
  length, Bytes, Result, ok, err,
}
use pq_ucan.Codec.{CodecError, invalid_varint, unexpected_end}

-- The loop of `put_uvarint`, for a value of at most `fuel` groups.
unfoldable pub put_groups : ℕ → ℕ → Bytes
put_groups zero value = []
put_groups (suc fuel) value =
    let later = put_groups fuel (value / 128) in
    if value / 128 == 0 then (value % 128) ∷ [] else (value % 128 + 128) ∷ later

-- A `u64` has at most ten groups.
unfoldable pub put_uvarint : ℕ → Bytes
unfolding put_groups
put_uvarint value = put_groups 10 value

-- After the loop. `len` is the length of all the bytes.
abbrev pub ended : ℕ → Result CodecError (ℕ × ℕ)
ended len = if ltb len 10 then err unexpected_end else err invalid_varint

-- A byte without the continuation bit.
abbrev pub last_group : ℕ → ℕ → ℕ → Result CodecError (ℕ × ℕ)
last_group i byte value = if ltb 0 i && byte == 0 then err invalid_varint else ok (value, i + 1)

-- The loop of `read_uvarint` at the byte `i`, with `left` more bytes at most.
unfoldable pub read_groups : ℕ → ℕ → ℕ → ℕ → Bytes → Result CodecError (ℕ × ℕ)
read_groups zero i value len bytes = ended len
read_groups (suc left) i value len [] = ended len
read_groups (suc left) i value len (byte ∷ bytes) =
    let value' = value + byte % 128 * 128 ^ i in
    let later = read_groups left (suc i) value' len bytes in
    if i == 9 && ltb 1 byte
    then err invalid_varint
    else if ltb byte 128
    then last_group i byte value'
    else later

unfoldable pub read_uvarint : Bytes → Result CodecError (ℕ × ℕ)
unfolding read_groups
read_uvarint bytes = read_groups 10 0 0 (length bytes) bytes
