-- ===== src/Examples/Delegations.antt =====
-- Tests of src/delegation.rs: a delegation as a token.
use pq_ucan.Base.{
  ◌⊎◌, length, ◌≡◌, refl, [], ◌∷◌, ◌++◌, Bytes, codes, utf8, utf8_char, from_utf8, ok,
}
use pq_ucan.Codec.Decode
use pq_ucan.Codec.Order.{byte_order}
use pq_ucan.Codec.Reader
use pq_ucan.Codec.Varint.{read_uvarint, read_groups}
use pq_ucan.Command
use pq_ucan.Crypto.{from_multicodec, multicodec, ed25519, new_signature, signature_len}
use pq_ucan.Did
use pq_ucan.Envelope.{open_envelope, tag, from_tag}
use pq_ucan.Envelope.Written.{IsToken}
use pq_ucan.Envelope.Delegation.{decode, decode_with, from_parts}
use pq_ucan.Envelope.Decoded.{HasEmptyMeta, decode_delegation-eq-ok}
use pq_ucan.Cid.{from_bytes}
use pq_ucan.Codec.Sorted.{place}
use pq_ucan.Codec.Order.{canonical_order, canonical_bytes}
use pq_ucan.Error.{TokenKind}
use pq_ucan.Examples.Chain.{alice, bob}
use pq_ucan.Examples.Codec.{bytes_as_cids, all_bytes}
use pq_ucan.Ipld.{Ipld}
use pq_ucan.Payload.{new_fields, text, did, bytes, map, list, timestamp, link, expiry, finish}
use pq_ucan.Payload.Delegation
use pq_ucan.Policy.Wire.{policy_from_ipld}
use pq_ucan.Time.{from_unix}
use pq_ucan.Examples.Tokens.{no_uppercase, delegation_payload, toy_hashing, no_text, zeros}
use pq_ucan.Token.{Delegation as DelegationToken, dag_cbor, cbor}
use pq_ucan.Varsig

abbrev delegation_bytes : Bytes
delegation_bytes =
    0x82 ∷ 0x58 ∷ 64 ∷ zeros 64
    ++ (0xa2
          ∷ 0x61
          ∷ b'h'
          ∷ 0x48
          ∷ 0x34
          ∷ 1
          ∷ 0xed
          ∷ 1
          ∷ 0xed
          ∷ 1
          ∷ 0x13
          ∷ 0x71
          ∷ 0x6e
          ∷ codes "ucan/dlg@1.0.0"
        ++ (0xa7 ∷ 0x63 ∷ codes "aud"
            ++ (0x6b ∷ bob
                ++ (0x63 ∷ codes "cmd"
                    ++ (0x64 ∷ codes "/msg"
                        ++ (0x63 ∷ codes "exp"
                            ++ (0xf6 ∷ 0x63 ∷ codes "iss"
                                ++ (0x6d ∷ alice
                                    ++ (0x63 ∷ codes "pol"
                                        ++ (0x80 ∷ 0x63 ∷ codes "sub"
                                            ++ (0xf6 ∷ 0x65 ∷ codes "nonce"
                                                ++ (0x40 ∷ []))))))))))))

abbrev decoded : DelegationToken Bytes
decoded = record {
  envelope = record {
    token_bytes = delegation_bytes;
    cid = 0x71 ∷ 0x12 ∷ delegation_bytes;
    header = record { algorithm = ed25519; encoding = dag_cbor };
    signature = record { algorithm = ed25519; bytes = zeros 64 };
    signed = cbor 67 (length delegation_bytes);
    kind = TokenKind.delegation;
  };
  payload = delegation_payload;
}

delegation_decodes :
    decode bytes_as_cids toy_hashing no_text no_uppercase delegation_bytes ≡ ok decoded
unfolding decode_with from_parts open_envelope tag from_tag Varsig.decode Varsig.header_of
    Varsig.algorithm_of Varsig.segments Varsig.from_code Varsig.read_segments new_signature
    signature_len Decode.item Decode.by_major Decode.read_map Decode.read_list Reader.head
    Reader.argument Reader.byte Reader.take_bytes Reader.read_bytes Reader.read_text Reader.finish
    Reader.array_len Reader.map_len Reader.container from_utf8 read_uvarint read_groups
    from_multicodec multicodec Delegation.from_ipld Delegation.subject Delegation.policy
    Delegation.command policy_from_ipld new_fields text did bytes map list timestamp link expiry
    finish from_unix Did.parse Did.method_is_valid Did.id_is_valid Did.id_chars_are_valid
    Command.parse utf8 utf8_char place byte_order canonical_order canonical_bytes from_bytes
    Decode.simple
delegation_decodes = refl

decode_delegation-eq-ok_example :
    (decoded.envelope.kind ≡ TokenKind.delegation)
    × (v : Ipld Bytes) × (Delegation.from_ipld no_uppercase v ≡ ok decoded.payload)
    × IsToken bytes_as_cids toy_hashing no_text delegation_bytes decoded.envelope v
    × ((Delegation.to_ipld decoded.payload ≡ v) ⊎ HasEmptyMeta v)
decode_delegation-eq-ok_example =
    decode_delegation-eq-ok bytes_as_cids toy_hashing no_text no_uppercase delegation_bytes decoded
      (all_bytes delegation_bytes refl) delegation_decodes
