-- ===== src/Varsig.antt =====
-- src/varsig.rs: varsig headers. `Encoding` and `Header` stand with the tokens in Token.antt.
pub mod RoundTrip
pub mod Segments
use pq_ucan.Base.{
  ℕ, zero, suc, Bool, ◌||◌, ◌==◌, leb, if◌then◌else◌, List, [], ◌∷◌, ◌++◌, Option, none, some, drop,
  length, text_eq, Bytes, Result, ok, err, ◌>>=◌, ◌>>◌, ok_or, ensure, map_err,
}
use pq_ucan.Codec.Varint.{put_uvarint, read_uvarint}
use pq_ucan.Crypto.{
  Algorithm, ed25519, p256, secp256k1, ml_dsa44, ml_dsa65, ml_dsa87, all_algorithms, find,
  from_multicodec,
}
use pq_ucan.Error.{VarsigError}
use pq_ucan.Token.{Encoding, Header, dag_cbor, dag_json}

abbrev pub prefix_byte : ℕ
prefix_byte = 0x34

abbrev pub version_byte : ℕ
version_byte = 0x01

abbrev pub eddsa : ℕ
eddsa = 0xed

abbrev pub ecdsa : ℕ
ecdsa = 0xec

abbrev pub sha2_256 : ℕ
sha2_256 = 0x12

abbrev pub sha2_512 : ℕ
sha2_512 = 0x13

-- `Encoding::code`.
unfoldable pub code_of : Encoding → ℕ
code_of dag_cbor = 0x71
code_of dag_json = 0x0129

-- `Encoding::from_code`.
unfoldable pub from_code : ℕ → Option Encoding
from_code code =
    if code == 0x71 then some dag_cbor else if code == 0x0129 then some dag_json else none

-- `Header::new` and `Header::with_encoding`.
unfoldable pub new_header : Algorithm → Header
new_header algorithm = record { algorithm = algorithm; encoding = dag_cbor }

unfoldable pub with_encoding : Header → Encoding → Header
with_encoding h encoding = record { algorithm = h.algorithm; encoding = encoding }

-- The algorithm segments that follow the version byte.
unfoldable pub segments : Algorithm → List ℕ
segments ed25519 = eddsa ∷ 0xed ∷ sha2_512 ∷ []
segments p256 = ecdsa ∷ 0x1200 ∷ sha2_256 ∷ []
segments secp256k1 = ecdsa ∷ 0xe7 ∷ sha2_256 ∷ []
segments ml_dsa44 = 0x1210 ∷ []
segments ml_dsa65 = 0x1211 ∷ []
segments ml_dsa87 = 0x1212 ∷ []

abbrev pub put_segments : List ℕ → Bytes
put_segments [] = []
put_segments (v ∷ vs) = put_uvarint v ++ put_segments vs

unfoldable pub encode : Header → Bytes
encode h =
    prefix_byte ∷ version_byte ∷ put_segments (segments h.algorithm)
    ++ put_uvarint (code_of h.encoding)

-- `strip_prefix` with one byte.
abbrev pub strip_byte : ℕ → Bytes → Option Bytes
strip_byte byte [] = none
strip_byte byte (b ∷ bytes) = if b == byte then some bytes else none

-- `rest.get(used..)`.
abbrev pub behind : ℕ → Bytes → Option Bytes
behind used bytes = if leb used (length bytes) then some (drop used bytes) else none

-- `while !rest.is_empty()`, for at most `fuel` rounds.
unfoldable pub read_segments : ℕ → Bytes → Result VarsigError (List ℕ)
read_segments fuel [] = ok []
read_segments zero (b ∷ bytes) = err VarsigError.varint
read_segments (suc fuel) (b ∷ bytes) = do
  (value, used) ← map_err (λ e. VarsigError.varint) (read_uvarint (b ∷ bytes))
  rest ← ok_or (behind used (b ∷ bytes)) VarsigError.varint
  values ← read_segments fuel rest
  ok (value ∷ values)

-- `split_last`.
abbrev pub split_last : List ℕ → Option (ℕ × List ℕ)
split_last [] = none
split_last (v ∷ []) = some (v, [])
split_last (v ∷ w ∷ vs) = elim (split_last (w ∷ vs)) [
  | none ↦ none
  | some (last, front) ↦ some (last, v ∷ front)
]

-- The error for segments of no algorithm.
abbrev pub unknown_segments : List ℕ → VarsigError
unknown_segments [] = VarsigError.truncated
unknown_segments (tag ∷ tags) =
    if tag == eddsa || tag == ecdsa
    then VarsigError.unsupported_parameters
    else elim (from_multicodec tag) [
      | some a ↦ VarsigError.unsupported_parameters
      | none ↦ VarsigError.unknown_algorithm tag
    ]

unfoldable pub algorithm_of : List ℕ → Result VarsigError Algorithm
unfolding segments from_multicodec
algorithm_of found =
    ok_or (find (λ a. text_eq (segments a) found) all_algorithms) (unknown_segments found)

-- The header of the segments that were read.
unfoldable pub header_of : List ℕ → Result VarsigError Header
unfolding algorithm_of from_code
header_of values = do
  (code, found) ← ok_or (split_last values) VarsigError.truncated
  algorithm ← algorithm_of found
  encoding ← ok_or (from_code code) (VarsigError.unsupported_encoding code)
  ok (record { algorithm = algorithm; encoding = encoding })

unfoldable pub decode : Bytes → Result VarsigError Header
unfolding read_segments header_of
decode bytes = do
  versioned ← ok_or (strip_byte prefix_byte bytes) VarsigError.prefix
  rest ← ok_or (strip_byte version_byte versioned) VarsigError.version
  values ← read_segments (length rest) rest
  header_of values
