-- ===== src/Did/Key.antt =====
-- src/did.rs: keys in `did:key`, over the base58 of the crate bs58 and the backend that checks keys.
pub mod RoundTrip
use pq_ucan.Base.{
  ◌≡◌, all, is_ascii_alphanumeric, true, ◌++◌, ◌+◌, text_eq, strip_prefix?, Option, none, some,
  Text, Bytes, codes, Result, ok, err, ok_or, ensure, map_err, ◌>>=◌, ◌>>◌,
}
use pq_ucan.Cid.{Base58}
use pq_ucan.Codec.Varint.{put_uvarint, read_uvarint}
use pq_ucan.Crypto.{Backend, PublicKey, multicodec, from_multicodec, new_key}
use pq_ucan.Did.{Did, method, method_id}
use pq_ucan.Did.Errors.{DidError, ResolveError}
use pq_ucan.Varsig.{behind}

module _ (bs58 : Base58) where
  unfoldable pub from_key : PublicKey → Did
  from_key key =
      codes "did:key:z" ++ bs58.encode (put_uvarint (multicodec key.algorithm) ++ key.bytes)

module _ (bs58 : Base58) (crypto : Backend) where
  -- The key in its bytes, behind its code.
  unfoldable pub key_of_raw : Bytes → Result DidError PublicKey
  key_of_raw raw = do
    (code, used) ← map_err (λ e. DidError.multibase) (read_uvarint raw)
    algorithm ← ok_or (from_multicodec code) (DidError.unknown_key_type code)
    bytes ← ok_or (behind used raw) DidError.key
    map_err (λ e. DidError.key) (new_key crypto algorithm bytes)

  unfoldable pub key : Did → Result DidError PublicKey
  key d = do
    ensure (text_eq (method d) (codes "key")) DidError.not_key
    b58 ← ok_or (strip_prefix? (codes "z") (method_id d)) DidError.multibase
    raw ← ok_or (bs58.decode b58) DidError.base58
    key_of_raw raw

  -- `KeyResolver`.
  unfoldable pub resolve : Did → Result ResolveError PublicKey
  resolve d = do
    ensure (text_eq (method d) (codes "key")) ResolveError.unsupported_method
    map_err ResolveError.did (key d)

-- What is relied on of bs58: text that decodes to the bytes, without a character that ends an
-- identifier or divides it.
pub record Base58Laws (bs58 : Base58) : Type 0 where
  pub back : (b : Bytes) → bs58.decode (bs58.encode b) ≡ some b
  pub plain : (b : Bytes) → all is_ascii_alphanumeric (bs58.encode b) ≡ true
