-- ===== src/Envelope.antt =====
-- src/envelope.rs: sealing, assembling and opening an envelope. `Envelope`, `Signed` and `verify` stand
-- with the tokens in Token.antt. `json` is the codec of src/codec/json.rs, and `sign` a `Signer`.

pub mod Written
pub mod Delegation
pub mod Invocation
pub mod Decoded
use pq_ucan.Base.{
  ℕ, ◌==◌, Bool, true, false, ◌&&◌, if◌then◌else◌, List, [], ◌∷◌, ◌++◌, Option, none, some, length,
  text_eq, Text, Bytes, codes, utf8, Result, ok, err, ◌>>=◌, ◌>>◌, ensure, map_err,
}
use pq_ucan.Cid.{CidCrate, Hashing, of_dag_cbor}
use pq_ucan.Codec.{CodecError}
use pq_ucan.Codec.Decode.{value}
use pq_ucan.Codec.Encode
use pq_ucan.Codec.Encode.{encode}
use pq_ucan.Codec.Reader.{
  Reader, start, position, finish, array_len, map_len, read_bytes, read_text,
}
use pq_ucan.Crypto.{CryptoError, PublicKey, Signature, new_signature}
use pq_ucan.Error.{
  Error, TokenKind, EnvelopeError, shape, unknown_tag, payload_not_map, delegation, invocation,
}
use pq_ucan.Ipld.{Ipld}
use pq_ucan.Payload.{inserted}
use pq_ucan.Token.{Encoding, dag_cbor, dag_json, Header, Signed, cbor, json, Envelope}
use pq_ucan.Varsig
use pq_ucan.Varsig.{new_header}

-- `TokenKind::tag`.
unfoldable pub tag : TokenKind → Text
tag delegation = codes "ucan/dlg@1.0.0"
tag invocation = codes "ucan/inv@1.0.0"

-- `DecodeOptions`.
pub record DecodeOptions : Type 0 where
  pub release_candidate_tags : Bool

abbrev pub strict : DecodeOptions
strict = record { release_candidate_tags = false }

-- `TokenKind::from_tag`.
unfoldable pub from_tag : Text → DecodeOptions → Result EnvelopeError TokenKind
from_tag t options =
    if text_eq t (codes "ucan/dlg@1.0.0")
    then ok delegation
    else if text_eq t (codes "ucan/inv@1.0.0")
    then ok invocation
    else if text_eq t (codes "ucan/dlg@1.0.0-rc.1") && options.release_candidate_tags
    then ok delegation
    else if text_eq t (codes "ucan/inv@1.0.0-rc.1") && options.release_candidate_tags
    then ok invocation
    else err (unknown_tag t)

pub record Unsigned : Type 0 where
  pub signing : Bytes
  pub sig_payload : Bytes

-- `encode` and `decode` of src/codec/json.rs.
pub record TextCodec (C : Type 0) : Type 0 where
  pub encode_text : Ipld C → Result CodecError Text
  pub decode_text : Bytes → Result CodecError (Ipld C)

-- A key that signs, with its `sign`.
pub record Signer : Type 0 where
  pub public_key : PublicKey
  pub sign : Bytes → Result CryptoError Signature

-- `signed.first() == Some(&b'{')`.
abbrev pub is_text : Bytes → Bool
is_text [] = false
is_text (b ∷ bs) = b == b'{'

module _ {C : Type 0} where
  -- `{"h": header, tag: payload}`.
  unfoldable pub sig_payload : Bytes → Text → Ipld C → Ipld C
  sig_payload header name payload = inserted ((codes "h", Ipld.bytes header) ∷ (name, payload) ∷ [])

  -- `matches!(payload, Ipld::Map(_))`.
  abbrev pub is_map : Ipld C → Bool
  is_map (Ipld.map m) = true
  is_map _ = false

module _ {M C : Type 0} (crate : CidCrate C) (hashing : Hashing M C)
    (text_codec : TextCodec C) where
  -- The bytes that are signed, under the encoding of the header.
  abbrev pub signing_of : Encoding → Ipld C → Bytes → Result Error Bytes
  signing_of dag_cbor v encoded = ok encoded
  signing_of dag_json v encoded = do t ← map_err Error.codec (text_codec.encode_text v); ok (utf8 t)

  unfoldable pub prepare : Header → TokenKind → Ipld C → Result Error Unsigned
  prepare header kind payload =
      let v = sig_payload (Varsig.encode header) (tag kind) payload in
      do
        encoded ← map_err Error.codec (encode crate v)
        signing ← signing_of header.encoding v encoded
        ok record { signing = signing; sig_payload = encoded }

  abbrev pub signed_of : Encoding → ℕ → ℕ → Bytes → Text → Ipld C → Result Error Signed
  signed_of dag_cbor from to header name payload = ok (cbor from to)
  signed_of dag_json from to header name payload = do
    t ← map_err Error.codec (text_codec.encode_text (sig_payload header name payload))
    ok (json (utf8 t))

  -- The text or the DAG-CBOR that was signed, as DAG-CBOR.
  abbrev pub as_cbor : Bytes → Result Error Bytes
  as_cbor signed =
      if is_text signed
      then (do
        v ← map_err Error.codec (text_codec.decode_text signed)
        map_err Error.codec (encode crate v))
      else ok signed

  unfoldable pub open_envelope : Bytes → DecodeOptions → Result Error (Envelope C × Ipld C)
  open_envelope bytes options = do
    (items, r1) ← map_err Error.codec (array_len (start bytes))
    ensure (items == 2) (Error.envelope shape)
    (signature_bytes, r2) ← map_err Error.codec (read_bytes r1)
    (fields, r3) ← map_err Error.codec (map_len r2)
    ensure (fields == 2) (Error.envelope shape)
    (name, r4) ← map_err Error.codec (read_text r3)
    ensure (text_eq name (codes "h")) (Error.envelope shape)
    (header_bytes, r5) ← map_err Error.codec (read_bytes r4)
    header ← map_err Error.varsig (Varsig.decode header_bytes)
    (tag_text, r6) ← map_err Error.codec (read_text r5)
    kind ← map_err Error.envelope (from_tag tag_text options)
    (payload, r7) ← map_err Error.codec (value crate r6)
    ensure (is_map payload) (Error.envelope payload_not_map)
    map_err Error.codec (finish r7)
    signature ← map_err Error.crypto (new_signature header.algorithm signature_bytes)
    signed ← signed_of header.encoding (position r2) (position r7) header_bytes tag_text payload
    ok (
      record {
        token_bytes = bytes;
        cid = of_dag_cbor hashing bytes;
        header = header;
        signature = signature;
        signed = signed;
        kind = kind;
      },
      payload,
    )

  unfoldable pub assemble : Bytes → Bytes → Result Error (Envelope C × Ipld C)
  assemble signed signature = do
    encoded ← as_cbor signed
    open_envelope (Encode.head 4 2 ++ (Encode.bytes signature ++ encoded)) strict

  unfoldable pub seal : Signer → TokenKind → Ipld C → Result Error (Envelope C)
  seal signer kind payload = do
    unsigned ← prepare (new_header signer.public_key.algorithm) kind payload
    signature ← map_err Error.crypto (signer.sign unsigned.signing)
    (envelope, _) ← assemble unsigned.sig_payload signature.bytes
    ok envelope
