-- ===== src/Did/Key/RoundTrip.antt =====
-- src/did.rs: a key written as a `did:key` and read back.
use pq_ucan.Base.{
  ℕ, ◌<◌, ◌^◌, ◌≡◌, refl, ap, true, not, ◌==◌, all, all_iff, All, is_ascii_alphanumeric, [], ◌∷◌,
  ◌++◌, drop, take_while, take_while-id, length, length-append, some, Text, Bytes, codes, ok, arith,
}
use pq_ucan.Cid.{Base58}
use pq_ucan.Codec.Varint.{put_uvarint}
use pq_ucan.Codec.Varint.RoundTrip.{read_uvarint-put_uvarint}
use pq_ucan.Crypto.{
  Backend, PublicKey, Algorithm, ed25519, p256, secp256k1, ml_dsa44, ml_dsa65, ml_dsa87, multicodec,
  new_key,
}
use pq_ucan.Crypto.Laws.{from_multicodec_iff}
use pq_ucan.Did.{base, method, method_id, is_base_char}
use pq_ucan.Did.Key.{from_key, key_of_raw, key, resolve, Base58Laws}
use pq_ucan.Varsig.{behind}

plain_char : (c : ℕ) → is_ascii_alphanumeric c ≡ true → is_base_char c ≡ true
plain_char c h = ground arith

plain_chars :
    (t : Text) → All (λ c. is_ascii_alphanumeric c ≡ true) t → All (λ c. is_base_char c ≡ true) t
plain_chars [] all = tt
plain_chars (c ∷ t) all = (plain_char c all.0, plain_chars t all.1)

multicodec_small : (a : Algorithm) → multicodec a < 2 ^ 64
unfolding multicodec
multicodec_small ed25519 = omega arith
multicodec_small p256 = omega arith
multicodec_small secp256k1 = omega arith
multicodec_small ml_dsa44 = omega arith
multicodec_small ml_dsa65 = omega arith
multicodec_small ml_dsa87 = omega arith

drop_past : (xs ys : Bytes) → drop (length xs) (xs ++ ys) ≡ ys
drop_past [] ys = refl
drop_past (x ∷ xs) ys = drop_past xs ys

behind-append : (xs ys : Bytes) → behind (length xs) (xs ++ ys) ≡ some ys
behind-append xs ys = ground (arith, length-append xs ys, drop_past xs ys)

module _ (bs58 : Base58) (laws : Base58Laws bs58) (crypto : Backend) where
  whole :
      (e : Text)
      → all is_ascii_alphanumeric e ≡ true
      → base (codes "did:key:z" ++ e) ≡ codes "did:key:z" ++ e
  unfolding base
  whole e plain =
      ap (λ t. codes "did:key:z" ++ t)
        (take_while-id is_base_char e (plain_chars e ((all_iff is_ascii_alphanumeric e).0 plain)))

  method_is :
      (e : Text)
      → all is_ascii_alphanumeric e ≡ true
      → method (codes "did:key:z" ++ e) ≡ codes "key"
  unfolding method
  method_is e plain = ap (λ b. take_while (λ c. not (c == b':')) (drop 4 b)) (whole e plain)

  id_is :
      (e : Text)
      → all is_ascii_alphanumeric e ≡ true
      → method_id (codes "did:key:z" ++ e) ≡ b'z' ∷ e
  unfolding method_id
  id_is e plain =
      ap (λ t. b'z' ∷ t)
        (take_while-id is_base_char e (plain_chars e ((all_iff is_ascii_alphanumeric e).0 plain)))

  key_of_raw_lem :
      (k : PublicKey)
      → new_key crypto k.algorithm k.bytes ≡ ok k
      → key_of_raw bs58 crypto (put_uvarint (multicodec k.algorithm) ++ k.bytes) ≡ ok k
  unfolding key_of_raw
  key_of_raw_lem k valid =
      let code = multicodec k.algorithm in
      rw (read_uvarint-put_uvarint code k.bytes (multicodec_small k.algorithm)) (
        rw
          (
            (from_multicodec_iff code k.algorithm).1 refl,
            behind-append (put_uvarint code) k.bytes,
            valid,
          )
          refl)

  key-from_key :
      (k : PublicKey)
      → new_key crypto k.algorithm k.bytes ≡ ok k
      → key bs58 crypto (from_key bs58 k) ≡ ok k
  unfolding key from_key
  key-from_key k valid =
      let raw = put_uvarint (multicodec k.algorithm) ++ k.bytes in
      let e = bs58.encode raw in
      rw (method_is e (laws.plain raw))
        (rw (id_is e (laws.plain raw)) (rw (laws.back raw) (key_of_raw_lem k valid)))

  -- A key that is valid is the key of its `did:key`, and what `KeyResolver` finds for it.
  pub resolve-from_key :
      (k : PublicKey)
      → new_key crypto k.algorithm k.bytes ≡ ok k
      → (key bs58 crypto (from_key bs58 k) ≡ ok k) × (resolve bs58 crypto (from_key bs58 k) ≡ ok k)
  unfolding resolve from_key
  resolve-from_key k valid =
      let raw = put_uvarint (multicodec k.algorithm) ++ k.bytes in
      let found = key-from_key k valid in
      (found, rw (method_is (bs58.encode raw) (laws.plain raw)) (rw found refl))
