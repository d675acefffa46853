-- ===== src/Examples/Codec.antt =====
-- Concrete values and bytes for the codec, the varints and the headers.
use pq_ucan.Base.{
  ◌↔◌, ◌≤◌, ◌≡◌, refl, true, ltb, all, pos, negsuc, [], ◌∷◌, ◌++◌, some, length, take, Bytes, codes,
  utf8, utf8_char, from_utf8, All, arith, ok,
}
use pq_ucan.Cid.{CidCrate, from_bytes}
use pq_ucan.Codec.Canonical.Items.{encode-decode}
use pq_ucan.Codec.Decode
use pq_ucan.Codec.Encode
use pq_ucan.Codec.Encode.{encode}
use pq_ucan.Codec.Decode.{decode}
use pq_ucan.Codec.Heads.{IsByte}
use pq_ucan.Codec.Order.{byte_order, canonical_bytes, canonical_order}
use pq_ucan.Codec.Readback.Items.{decode-encode}
use pq_ucan.Codec.Reader
use pq_ucan.Codec.Sorted.{place}
use pq_ucan.Codec.Stable.{IsStable}
use pq_ucan.Codec.Varint.{put_uvarint, read_groups, read_uvarint}
use pq_ucan.Codec.Varint.RoundTrip.{read_uvarint-put_uvarint, read_uvarint-eq-ok}
use pq_ucan.Crypto.{ed25519}
use pq_ucan.Ipld.{Ipld, nil, cons, end, field}
use pq_ucan.Token.{Header, dag_json}
use pq_ucan.Varsig
use pq_ucan.Varsig.{read_segments, put_segments}
use pq_ucan.Varsig.RoundTrip.{header_decode-encode, header_encode-decode}
use pq_ucan.Varsig.Segments.{read_segments_iff}

-- CIDs that are their bytes.
abbrev pub bytes_as_cids : CidCrate Bytes
bytes_as_cids = record {
  try_bytes = λ b. some b;
  to_bytes = λ c. c;
  try_text = λ t. some t;
  to_text = λ c. c;
}

abbrev value : Ipld Bytes
value = Ipld.map (
    field (codes "aa")
      (Ipld.list (cons (Ipld.integer (pos 1000)) (cons (Ipld.link (1 ∷ 2 ∷ [])) nil)))
      (field (codes "b") (Ipld.integer (negsuc 6)) end))

abbrev value_bytes : Bytes
value_bytes =
    0xa2 ∷ 0x61 ∷ b'b' ∷ 0x26 ∷ 0x62 ∷ b'a' ∷ b'a' ∷ 0x82 ∷ 0x19 ∷ 3 ∷ 232 ∷ 0xd8 ∷ 42 ∷ 0x43 ∷ 0
    ∷ 1 ∷ 2 ∷ []

value_encodes : encode bytes_as_cids value ≡ ok value_bytes
unfolding encode Encode.item Encode.write_map Encode.write_list Encode.integer Encode.head
    Encode.text Encode.bytes Encode.link place canonical_bytes utf8 utf8_char
value_encodes = refl

value_decodes : decode bytes_as_cids value_bytes ≡ ok value
unfolding decode Decode.item Decode.by_major Decode.read_map Decode.read_list Decode.read_link
    Reader.head Reader.argument Reader.byte Reader.take_bytes Reader.read_bytes Reader.read_text
    Reader.finish place byte_order canonical_order canonical_bytes utf8 utf8_char from_utf8
    from_bytes
value_decodes = refl

pub all_bytes : (bs : Bytes) → all (λ b. ltb b 256) bs ≡ true → All IsByte bs
all_bytes [] h = tt
all_bytes (b ∷ bs) h = (ground arith, all_bytes bs (ground arith))

encode-decode_example : encode bytes_as_cids value ≡ ok value_bytes
encode-decode_example =
    encode-decode bytes_as_cids value_bytes value (all_bytes value_bytes refl) value_decodes

value-IsStable : IsStable bytes_as_cids value
unfolding byte_order utf8 utf8_char
value-IsStable = ground arith

decode-encode_example : decode bytes_as_cids value_bytes ≡ ok value
decode-encode_example =
    decode-encode bytes_as_cids value value_bytes value-IsStable value_encodes (omega arith)

read_uvarint-put_uvarint_example :
    read_uvarint (put_uvarint 0x1200 ++ (7 ∷ [])) ≡ ok (0x1200, length (put_uvarint 0x1200))
read_uvarint-put_uvarint_example = read_uvarint-put_uvarint 0x1200 (7 ∷ []) (omega arith)

read_uvarint-eq-ok_example :
    (take 2 (0x80 ∷ 0x24 ∷ 9 ∷ []) ≡ put_uvarint 0x1200) × (1 ≤ 2) × (2 ≤ 3)
unfolding read_uvarint read_groups
read_uvarint-eq-ok_example =
    read_uvarint-eq-ok (0x80 ∷ 0x24 ∷ 9 ∷ []) 0x1200 2 (all_bytes (0x80 ∷ 0x24 ∷ 9 ∷ []) refl) refl

abbrev text_header : Header
text_header = record { algorithm = ed25519; encoding = dag_json }

header_decode-encode_example : Varsig.decode (Varsig.encode text_header) ≡ ok text_header
header_decode-encode_example = header_decode-encode text_header

abbrev header_bytes : Bytes
header_bytes = 0x34 ∷ 1 ∷ 0xed ∷ 1 ∷ 0xed ∷ 1 ∷ 0x13 ∷ 0xa9 ∷ 2 ∷ []

header_encode-decode_example : Varsig.encode text_header ≡ header_bytes
unfolding Varsig.decode Varsig.header_of Varsig.algorithm_of Varsig.segments Varsig.from_code
    read_segments read_uvarint read_groups
header_encode-decode_example =
    header_encode-decode header_bytes text_header (all_bytes header_bytes refl) refl

abbrev two_segments : Bytes
two_segments = 0x80 ∷ 0x24 ∷ 9 ∷ []

read_segments_iff_example :
    (read_segments 3 two_segments ≡ ok (0x1200 ∷ 9 ∷ []))
    ↔ (put_segments (0x1200 ∷ 9 ∷ []) ≡ two_segments)
read_segments_iff_example =
    read_segments_iff 3 two_segments (0x1200 ∷ 9 ∷ []) (all_bytes two_segments refl) (omega arith)
      (omega arith, (omega arith, tt))
