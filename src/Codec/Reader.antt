-- ===== src/Codec/Reader.antt =====
-- src/codec/decode.rs: the cursor `Reader`, as the bytes that are still unread with their position, and
-- the item heads.
use pq_ucan.Base.{
  ℕ, ◌+◌, ◌*◌, ◌/◌, ◌%◌, not, ltb, leb, ◌==◌, if◌then◌else◌, [], ◌∷◌, Option, take, drop, length,
  Bytes, Text, from_utf8, Result, ok, err, ◌>>=◌, ◌>>◌, ok_or, ensure,
}
use pq_ucan.Codec.{
  CodecError, unexpected_end, trailing_bytes, indefinite_length, non_minimal_integer, invalid_utf8,
  reserved, length_too_large, unexpected_type,
}
use pq_ucan.Policy.Selector.{to_usize}

pub record Reader : Type 0 where
  pub rest : Bytes
  pub pos : ℕ

-- A method that returns an `A`, with the cursor behind what it read.
abbrev pub Read : Type 0 → Type 0
Read A = Reader → Result CodecError (A × Reader)

-- `Reader::new`.
abbrev pub start : Bytes → Reader
start bytes = record { rest = bytes; pos = 0 }

abbrev pub position : Reader → ℕ
position r = r.pos

unfoldable pub finish : Reader → Result CodecError (Unit {0})
finish r = ensure (length r.rest == 0) trailing_bytes

unfoldable pub byte : Read ℕ
byte r = elim r.rest [
  | [] ↦ err unexpected_end
  | b ∷ bs ↦ ok (b, record { rest = bs; pos = r.pos + 1 })
]

-- `usize::checked_add`.
abbrev pub checked_add : ℕ → ℕ → Option ℕ
checked_add a b = to_usize (a + b)

unfoldable pub take_bytes : ℕ → Read Bytes
take_bytes len r = do
  n ← ok_or (to_usize len) length_too_large
  stop ← ok_or (checked_add r.pos n) length_too_large
  ensure (leb n (length r.rest)) unexpected_end
  ok (take n r.rest, record { rest = drop n r.rest; pos = stop })

-- `from_be_bytes`, behind the number `n`.
abbrev pub from_be_bytes : ℕ → Bytes → ℕ
from_be_bytes n [] = n
from_be_bytes n (b ∷ bs) = from_be_bytes (n * 256 + b) bs

-- An argument in `n` bytes, which must not be below `least`.
abbrev pub fixed_argument : ℕ → ℕ → Read ℕ
fixed_argument n least r = do
  (bytes, r') ← take_bytes n r
  ensure (leb least (from_be_bytes 0 bytes)) non_minimal_integer
  ok (from_be_bytes 0 bytes, r')

abbrev pub byte_argument : Read ℕ
byte_argument r = do (v, r') ← byte r; ensure (leb 24 v) non_minimal_integer; ok (v, r')

unfoldable pub argument : ℕ → Read ℕ
unfolding byte
argument info r =
    if ltb info 24
    then ok (info, r)
    else if info == 24
    then byte_argument r
    else if info == 25
    then fixed_argument 2 0x100 r
    else if info == 26
    then fixed_argument 4 0x10000 r
    else if info == 27
    then fixed_argument 8 0x100000000 r
    else if info == 31
    then err indefinite_length
    else err reserved

pub record Head : Type 0 where
  pub major : ℕ
  pub arg : ℕ

unfoldable pub head : Read Head
unfolding byte
head r = do
  (initial, r1) ← byte r
  ensure (not (initial / 32 == 7)) unexpected_type
  (n, r2) ← argument (initial % 32) r1
  ok (record { major = initial / 32; arg = n }, r2)

-- The head of the major type that the caller asks for.
abbrev pub expect_head : ℕ → Read ℕ
expect_head major r = do (h, r') ← head r; ensure (h.major == major) unexpected_type; ok (h.arg, r')

unfoldable pub container : ℕ → Read ℕ
container major r = do
  (n, r') ← expect_head major r
  len ← ok_or (to_usize n) length_too_large
  ok (len, r')

unfoldable pub array_len : Read ℕ
array_len r = container 4 r

unfoldable pub map_len : Read ℕ
map_len r = container 5 r

unfoldable pub read_bytes : Read Bytes
read_bytes r = do (n, r') ← expect_head 2 r; take_bytes n r'

-- A text of `n` bytes.
abbrev pub text_of : ℕ → Read Text
text_of n r = do
  (raw, r') ← take_bytes n r
  text ← ok_or (from_utf8 raw) invalid_utf8
  ok (text, r')

unfoldable pub read_text : Read Text
read_text r = do (n, r') ← expect_head 3 r; text_of n r'
