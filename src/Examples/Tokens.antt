-- ===== src/Examples/Tokens.antt =====
-- Concrete keys, payloads and tokens.
use pq_ucan.Base.{
  length, ℕ, zero, suc, ◌+◌, ◌≡◌, refl, ap, ◌∙◌, Bool, true, false, all, is_ascii_alphanumeric,
  ◌==◌, if◌then◌else◌, pos, [], ◌∷◌, ◌++◌, Option, none, some, Bytes, Text, codes, utf8, utf8_char,
  from_utf8, arith, ok,
}
use pq_ucan.Cid.{Base58, Hashing}
use pq_ucan.Codec.Decode
use pq_ucan.Codec.Order.{byte_order}
use pq_ucan.Codec.Reader
use pq_ucan.Codec.Varint.{read_uvarint, read_groups}
use pq_ucan.Command
use pq_ucan.Crypto.{
  PublicKey, from_multicodec, multicodec, ed25519, new_key, public_key_len, new_signature,
  signature_len,
}
use pq_ucan.Did
use pq_ucan.Did.Key.{from_key, key, resolve, Base58Laws}
use pq_ucan.Did.Key.RoundTrip.{resolve-from_key}
use pq_ucan.Envelope.{TextCodec, strict, open_envelope, tag, from_tag}
use pq_ucan.Envelope.Written.{open_envelope-eq-ok, IsToken}
use pq_ucan.Envelope.Invocation.{decode, decode_with, from_parts}
use pq_ucan.Envelope.Decoded.{decode_invocation-eq-ok}
use pq_ucan.Cid.{from_bytes}
use pq_ucan.Codec.Sorted.{place}
use pq_ucan.Codec.Order.{canonical_order, canonical_bytes}
use pq_ucan.Error.{TokenKind}
use pq_ucan.Examples.Chain.{alice, bob, toy}
use pq_ucan.Examples.Codec.{bytes_as_cids, all_bytes}
use pq_ucan.Ipld.{Ipld, Fields, nil, cons, end, field}
use pq_ucan.Payload.{new_fields, text, did, bytes, map, list, timestamp, link, expiry, finish}
use pq_ucan.Payload.Delegation
use pq_ucan.Payload.Invocation
use pq_ucan.Payload.RoundTrip.{invocation_to_ipld-from_ipld, delegation_to_ipld-from_ipld}
use pq_ucan.Policy.Wire.{policy_from_ipld}
use pq_ucan.Time.{at, never, from_unix}
use pq_ucan.Token.{
  Invocation as InvocationToken, InvocationPayload, DelegationPayload, powerline, dag_cbor, cbor,
  Envelope,
}
use pq_ucan.Varsig

-- A number as that many letters and a mark.
abbrev letters : ℕ → Text → Text
letters zero t = b'b' ∷ t
letters (suc n) t = b'a' ∷ letters n t

abbrev spell : Bytes → Text
spell [] = []
spell (n ∷ bs) = letters n (spell bs)

-- `n` letters were read.
abbrev unspell : ℕ → Text → Option Bytes
unspell n [] = if n == 0 then some [] else none
unspell n (c ∷ t) =
    let more = unspell (suc n) t in
    let next = unspell 0 t in
    if c == b'a' then more else elim next [ none ↦ none | some bs ↦ some (n ∷ bs) ]

abbrev toy_base58 : Base58
toy_base58 = record { encode = spell; decode = unspell 0 }

unspell-letters :
    (n m : ℕ) (t : Text) (bs : Bytes)
    → unspell 0 t ≡ some bs
    → unspell m (letters n t) ≡ some ((m + n) ∷ bs)
unspell-letters zero m t bs h =
    let same : m ≡ m + 0 = omega arith in rw h (ap (λ k. some (k ∷ bs)) same)
unspell-letters (suc n) m t bs h =
    let same : suc m + n ≡ m + suc n = omega arith in
    unspell-letters n (suc m) t bs h ∙ ap (λ k. some (k ∷ bs)) same

unspell-spell : (bs : Bytes) → unspell 0 (spell bs) ≡ some bs
unspell-spell [] = refl
unspell-spell (n ∷ bs) =
    let same : 0 + n ≡ n = omega arith in
    unspell-letters n 0 (spell bs) bs (unspell-spell bs) ∙ ap (λ k. some (k ∷ bs)) same

letters-plain :
    (n : ℕ) (t : Text)
    → all is_ascii_alphanumeric t ≡ true
    → all is_ascii_alphanumeric (letters n t) ≡ true
letters-plain zero t h = h
letters-plain (suc n) t h = letters-plain n t h

spell-plain : (bs : Bytes) → all is_ascii_alphanumeric (spell bs) ≡ true
spell-plain [] = refl
spell-plain (n ∷ bs) = letters-plain n (spell bs) (spell-plain bs)

toy_base58-laws : Base58Laws toy_base58
toy_base58-laws = record { back = unspell-spell; plain = spell-plain }

abbrev pub zeros : ℕ → Bytes
zeros zero = []
zeros (suc n) = 0 ∷ zeros n

abbrev key_of_zeros : PublicKey
key_of_zeros = record { algorithm = ed25519; bytes = zeros 32 }

resolve-from_key_example :
    (key toy_base58 toy (from_key toy_base58 key_of_zeros) ≡ ok key_of_zeros)
    × (resolve toy_base58 toy (from_key toy_base58 key_of_zeros) ≡ ok key_of_zeros)
unfolding new_key public_key_len
resolve-from_key_example = resolve-from_key toy_base58 toy_base58-laws toy key_of_zeros refl

abbrev pub no_uppercase : ℕ → Bool
no_uppercase c = false

abbrev invocation_fields : Fields Bytes
invocation_fields = field (codes "args") (Ipld.map end) (
    field (codes "cmd") (Ipld.string (codes "/msg")) (
      field (codes "exp") (Ipld.integer (pos 200)) (
        field (codes "iss") (Ipld.string bob) (
          field (codes "nonce") (Ipld.bytes (7 ∷ [])) (
            field (codes "prf") (Ipld.list (cons (Ipld.link (1 ∷ [])) nil))
              (field (codes "sub") (Ipld.string alice) end))))))

abbrev invocation_payload : InvocationPayload Bytes
invocation_payload = record {
  issuer = bob;
  subject = alice;
  audience = none;
  command = codes "/msg";
  args = end;
  proofs = (1 ∷ []) ∷ [];
  meta = end;
  nonce = 7 ∷ [];
  expiration = at (pos 200);
  issued_at = none;
  cause = none;
}

invocation_reads :
    Invocation.from_ipld no_uppercase (Ipld.map invocation_fields) ≡ ok invocation_payload
unfolding Invocation.from_ipld Invocation.proofs_of Delegation.command new_fields text did bytes map
    list timestamp link expiry finish from_unix Did.parse Did.method_is_valid Did.id_is_valid
    Did.id_chars_are_valid Command.parse utf8
invocation_reads = refl

invocation_to_ipld-from_ipld_example :
    Invocation.to_ipld invocation_payload ≡ Ipld.map invocation_fields
unfolding byte_order utf8 utf8_char
invocation_to_ipld-from_ipld_example =
    invocation_to_ipld-from_ipld no_uppercase invocation_fields invocation_payload (ground arith)
      invocation_reads

abbrev delegation_fields : Fields Bytes
delegation_fields = field (codes "aud") (Ipld.string bob) (
    field (codes "cmd") (Ipld.string (codes "/msg")) (
      field (codes "exp") Ipld.null (
        field (codes "iss") (Ipld.string alice) (
          field (codes "nonce") (Ipld.bytes [])
            (field (codes "pol") (Ipld.list nil) (field (codes "sub") Ipld.null end))))))

abbrev pub delegation_payload : DelegationPayload Bytes
delegation_payload = record {
  issuer = alice;
  audience = bob;
  subject = powerline;
  command = codes "/msg";
  policy = [];
  nonce = [];
  meta = end;
  not_before = none;
  expiration = never;
}

delegation_reads :
    Delegation.from_ipld no_uppercase (Ipld.map delegation_fields) ≡ ok delegation_payload
unfolding Delegation.from_ipld Delegation.subject Delegation.policy Delegation.command new_fields
    text did bytes map timestamp expiry finish from_unix Did.parse Did.method_is_valid
    Did.id_is_valid Did.id_chars_are_valid Command.parse policy_from_ipld utf8
delegation_reads = refl

delegation_to_ipld-from_ipld_example :
    Delegation.to_ipld delegation_payload ≡ Ipld.map delegation_fields
unfolding byte_order utf8 utf8_char
delegation_to_ipld-from_ipld_example =
    delegation_to_ipld-from_ipld no_uppercase delegation_fields delegation_payload (ground arith)
      (ground arith) delegation_reads

abbrev pub toy_hashing : Hashing Bytes Bytes
toy_hashing = record {
  digest = λ b. b;
  wrap = λ code b. some (code ∷ b);
  default_hash = [];
  new_v1 = λ code m. code ∷ m;
}

-- No text form.
abbrev pub no_text : TextCodec Bytes
no_text = record { encode_text = λ v. ok []; decode_text = λ b. ok Ipld.null }

abbrev token_bytes : Bytes
token_bytes =
    0x82 ∷ 0x58 ∷ 64 ∷ zeros 64
    ++ (0xa2
          ∷ 0x61
          ∷ b'h'
          ∷ 0x48
          ∷ 0x34
          ∷ 1
          ∷ 0xed
          ∷ 1
          ∷ 0xed
          ∷ 1
          ∷ 0x13
          ∷ 0x71
          ∷ 0x6e
          ∷ codes "ucan/inv@1.0.0"
        ++ (0xa0 ∷ []))

abbrev envelope : Envelope Bytes
envelope = record {
  token_bytes = token_bytes;
  cid = 0x71 ∷ 0x12 ∷ token_bytes;
  header = record { algorithm = ed25519; encoding = dag_cbor };
  signature = record { algorithm = ed25519; bytes = zeros 64 };
  signed = cbor 67 95;
  kind = TokenKind.invocation;
}

token_opens :
    open_envelope bytes_as_cids toy_hashing no_text token_bytes strict ≡ ok (envelope, Ipld.map end)
unfolding open_envelope tag from_tag Varsig.decode Varsig.header_of Varsig.algorithm_of
    Varsig.segments Varsig.from_code Varsig.read_segments new_signature signature_len Decode.item
    Decode.by_major Decode.read_map Reader.head Reader.argument Reader.byte Reader.take_bytes
    Reader.read_bytes Reader.read_text Reader.finish Reader.array_len Reader.map_len
    Reader.container from_utf8 read_uvarint read_groups from_multicodec multicodec
token_opens = refl

open_envelope-eq-ok_example :
    IsToken bytes_as_cids toy_hashing no_text token_bytes envelope (Ipld.map end)
open_envelope-eq-ok_example =
    open_envelope-eq-ok bytes_as_cids toy_hashing no_text token_bytes envelope (Ipld.map end)
      (all_bytes token_bytes refl) token_opens

abbrev invocation_bytes : Bytes
invocation_bytes =
    0x82 ∷ 0x58 ∷ 64 ∷ zeros 64
    ++ (0xa2
          ∷ 0x61
          ∷ b'h'
          ∷ 0x48
          ∷ 0x34
          ∷ 1
          ∷ 0xed
          ∷ 1
          ∷ 0xed
          ∷ 1
          ∷ 0x13
          ∷ 0x71
          ∷ 0x6e
          ∷ codes "ucan/inv@1.0.0"
        ++ (0xa7 ∷ 0x63 ∷ codes "cmd"
            ++ (0x64 ∷ codes "/msg"
                ++ (0x63 ∷ codes "exp"
                    ++ (0x18 ∷ 200 ∷ 0x63 ∷ codes "iss"
                        ++ (0x6b ∷ bob
                            ++ (0x63 ∷ codes "prf"
                                ++ (0x81 ∷ 0xd8 ∷ 42 ∷ 0x42 ∷ 0 ∷ 1 ∷ 0x63 ∷ codes "sub"
                                    ++ (0x6d ∷ alice
                                        ++ (0x64 ∷ codes "args"
                                            ++ (0xa0 ∷ 0x65 ∷ codes "nonce"
                                                ++ (0x41 ∷ 7 ∷ []))))))))))))

abbrev decoded : InvocationToken Bytes
decoded = record {
  envelope = record {
    token_bytes = invocation_bytes;
    cid = 0x71 ∷ 0x12 ∷ invocation_bytes;
    header = record { algorithm = ed25519; encoding = dag_cbor };
    signature = record { algorithm = ed25519; bytes = zeros 64 };
    signed = cbor 67 (length invocation_bytes);
    kind = TokenKind.invocation;
  };
  payload = invocation_payload;
}

invocation_decodes :
    decode bytes_as_cids toy_hashing no_text no_uppercase invocation_bytes ≡ ok decoded
unfolding decode_with from_parts open_envelope tag from_tag Varsig.decode Varsig.header_of
    Varsig.algorithm_of Varsig.segments Varsig.from_code Varsig.read_segments new_signature
    signature_len Decode.item Decode.by_major Decode.read_map Decode.read_list Decode.read_link
    Reader.head Reader.argument Reader.byte Reader.take_bytes Reader.read_bytes Reader.read_text
    Reader.finish Reader.array_len Reader.map_len Reader.container from_utf8 read_uvarint
    read_groups from_multicodec multicodec Invocation.from_ipld Invocation.proofs_of
    Delegation.command new_fields text did bytes map list timestamp link expiry finish from_unix
    Did.parse Did.method_is_valid Did.id_is_valid Did.id_chars_are_valid Command.parse utf8
    utf8_char place byte_order canonical_order canonical_bytes from_bytes
invocation_decodes = refl

decode_invocation-eq-ok_example :
    (decoded.envelope.kind ≡ TokenKind.invocation)
    × IsToken bytes_as_cids toy_hashing no_text invocation_bytes decoded.envelope
        (Invocation.to_ipld decoded.payload)
decode_invocation-eq-ok_example =
    decode_invocation-eq-ok bytes_as_cids toy_hashing no_text no_uppercase invocation_bytes decoded
      (all_bytes invocation_bytes refl) invocation_decodes
