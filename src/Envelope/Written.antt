-- ===== src/Envelope/Written.antt =====
-- src/envelope.rs: the bytes of a token that was opened.
use pq_ucan.Base.{
  ℕ, ◌==◌, ◌≡◌, refl, sym, ap, ap₂, subst, ◌+◌, ◌∙◌, true, Bool-cases, inl, inr, [], ◌∷◌, ◌++◌,
  append-nil, All, length, text_eq, text_eq→eq, Text, Bytes, codes, arith, ok, ok_or, ok_or-eq-ok,
  ensure-eq-ok, >>=-eq-ok, ok-injective, after_map_err, after_ensure,
}
use pq_ucan.Cid.{CidCrate, Hashing, of_dag_cbor}
use pq_ucan.Codec.{trailing_bytes, length_too_large, max_depth}
use pq_ucan.Codec.Canonical.{bytes_left, expect_head-eq-ok, read_bytes-eq-ok, read_text-eq-ok}
use pq_ucan.Codec.Canonical.Items.{item-eq-ok}
use pq_ucan.Codec.Canonical.Maps.{HasOrder, value-HasOrder}
use pq_ucan.Codec.Canonical.Loops.{to_usize-eq-some}
use pq_ucan.Codec.Decode.{value}
use pq_ucan.Codec.Encode
use pq_ucan.Codec.Encode.{encode}
use pq_ucan.Codec.Heads.{IsByte}
use pq_ucan.Codec.Heads.Inverse.{All-front, All-back}
use pq_ucan.Codec.Reader.{
  Reader, start, finish, array_len, map_len, container, expect_head, read_bytes, read_text,
}
use pq_ucan.Crypto.{Algorithm, Signature, new_signature}
use pq_ucan.Error.{Error, TokenKind, shape, payload_not_map}
use pq_ucan.Ipld.{Ipld}
use pq_ucan.Policy.Selector.{to_usize}
use pq_ucan.Token.{Envelope}
use pq_ucan.Varsig
use pq_ucan.Varsig.RoundTrip
use pq_ucan.Envelope.{tag, from_tag, strict, TextCodec, is_map, signed_of, open_envelope}

-- `[signature, {"h": header, tag: payload}]`, with the payload's bytes.
abbrev pub token_of : {C : Type 0} → Envelope C → Bytes → Bytes
token_of e body =
    Encode.head 4 2
    ++ (Encode.bytes e.signature.bytes
        ++ (Encode.head 5 2
            ++ (Encode.text (codes "h")
                ++ (Encode.bytes (Varsig.encode e.header) ++ (Encode.text (tag e.kind) ++ body)))))

container-eq-ok :
    (major n : ℕ) (r0 r : Reader)
    → All IsByte r0.rest
    → container major r0 ≡ ok (n, r)
    → r0.rest ≡ Encode.head major n ++ r.rest
unfolding container
container-eq-ok major n r0 r all h =
    let ((m, r1), read, h1) = >>=-eq-ok (expect_head major r0) _ h in
    let (len, counted, h2) = >>=-eq-ok (ok_or (to_usize m) length_too_large) _ h1 in
    let same : (len, r1) ≡ (n, r) = ok-injective h2 in
    let is = to_usize-eq-some m len (ok_or-eq-ok (to_usize m) length_too_large counted) in
    (expect_head-eq-ok major m r0 r1 all read).split
    ∙ ap (λ k. Encode.head major k ++ r1.rest) is
    ∙ ap (λ (p : ℕ × Reader). Encode.head major p.0 ++ p.1.rest) same

from_tag-strict : (t : Text) (k : TokenKind) → from_tag t strict ≡ ok k → tag k ≡ t
unfolding from_tag tag
from_tag-strict t k h = elim (Bool-cases (text_eq t (codes "ucan/dlg@1.0.0"))) [
  | inl one ↦
      ap tag (sym (ok-injective (rw one at h))) ∙ sym (text_eq→eq t (codes "ucan/dlg@1.0.0") one)
  | inr other ↦ elim (Bool-cases (text_eq t (codes "ucan/inv@1.0.0"))) [
    | inl two ↦
        ap tag (sym (ok-injective (rw (other, two) at h)))
        ∙ sym (text_eq→eq t (codes "ucan/inv@1.0.0") two)
    | inr neither ↦ ground arith
  ]
]

new_signature-eq-ok :
    (a : Algorithm) (b : Bytes) (s : Signature) → new_signature a b ≡ ok s → s.bytes ≡ b
unfolding new_signature
new_signature-eq-ok a b s h = ground arith

finish-eq-ok : (r : Reader) {u : Unit {0}} → finish r ≡ ok u → r.rest ≡ []
unfolding finish
finish-eq-ok r h = nil_of_length r.rest (ensure-eq-ok (length r.rest == 0) trailing_bytes h)
  where
    nil_of_length : (l : Bytes) → length l == 0 ≡ true → l ≡ []
    nil_of_length [] h = refl
    nil_of_length (x ∷ l) h = ground arith

is_two : (n : ℕ) → n == 2 ≡ true → n ≡ 2
is_two n h = ground arith

inner_bytes : (b rest : Bytes) → All IsByte (Encode.bytes b ++ rest) → All IsByte b
unfolding Encode.bytes
inner_bytes b rest all =
    All-back IsByte (Encode.head 2 (length b)) b
      (All-front IsByte (Encode.head 2 (length b) ++ b) rest all)

module _ {M C : Type 0} (crate : CidCrate C) (hashing : Hashing M C)
    (text_codec : TextCodec C) where
  -- `bytes` are the token of `e` and `payload`, and a map at the top of the payload is in its order.
  abbrev pub IsToken : Bytes → Envelope C → Ipld C → Type 0
  IsToken bytes e payload =
      (body : Bytes) × (encode crate payload ≡ ok body)
      × (token_of e body ≡ bytes)
      × (e.token_bytes ≡ bytes)
      × (e.cid ≡ of_dag_cbor hashing bytes)
      × HasOrder payload

  -- The bytes of a token that `open` takes under the strict rules are the one form of what it returns:
  -- the signature, the header, the tag and the payload, as `encode` writes them.
  pub open_envelope-eq-ok :
      (bytes : Bytes) (e : Envelope C) (payload : Ipld C)
      → All IsByte bytes
      → open_envelope crate hashing text_codec bytes strict ≡ ok (e, payload)
      → IsToken bytes e payload
  unfolding open_envelope array_len map_len encode
  open_envelope-eq-ok bytes e payload all h =
      after_map_err Error.codec (array_len (start bytes)) _ h (λ items h1 k1.
        after_ensure (items.0 == 2) (Error.envelope shape) _ k1 (λ two k2.
          after_map_err Error.codec (read_bytes items.1) _ k2 (λ sig h2 k3.
            after_map_err Error.codec (map_len sig.1) _ k3 (λ fields h3 k4.
              after_ensure (fields.0 == 2) (Error.envelope shape) _ k4 (λ two' k5.
                after_map_err Error.codec (read_text fields.1) _ k5 (λ name h4 k6.
                  after_ensure (text_eq name.0 (codes "h")) (Error.envelope shape) _ k6 (λ is_h k7.
                    after_map_err Error.codec (read_bytes name.1) _ k7 (λ head h5 k8.
                      after_map_err Error.varsig (Varsig.decode head.0) _ k8 (λ header h6 k9.
                        after_map_err Error.codec (read_text head.1) _ k9 (λ tagged h7 k10.
                          after_map_err Error.envelope (from_tag tagged.0 strict) _ k10
                            (λ kind h8 k11.
                              after_map_err Error.codec (value crate tagged.1) _ k11
                                (λ found h9 k12.
                                  after_ensure (is_map found.0) (Error.envelope payload_not_map) _
                                    k12
                                    (λ _ k13.
                                      after_map_err Error.codec (finish found.1) _ k13 (λ _ h10 k14.
                                        after_map_err Error.crypto
                                          (new_signature header.algorithm sig.0) _ k14
                                          (λ signature h11 k15.
                                            let (signed, _, k16) =
                                              >>=-eq-ok
                                                (signed_of crate hashing text_codec header.encoding
                                                  _ _ head.0 tagged.0 found.0)
                                                _ k15 in
                                            let e1 =
                                              container-eq-ok 4 items.0 (start bytes) items.1 all
                                                h1 in
                                            let a1 =
                                              bytes_left bytes (Encode.head 4 items.0) items.1.rest
                                                e1 all in
                                            let e2 = read_bytes-eq-ok sig.0 items.1 sig.1 a1 h2 in
                                            let a2 =
                                              bytes_left items.1.rest (Encode.bytes sig.0)
                                                sig.1.rest e2 a1 in
                                            let e3 =
                                              container-eq-ok 5 fields.0 sig.1 fields.1 a2 h3 in
                                            let a3 =
                                              bytes_left sig.1.rest (Encode.head 5 fields.0)
                                                fields.1.rest e3 a2 in
                                            let e4 = read_text-eq-ok name.0 fields.1 name.1 a3 h4 in
                                            let a4 =
                                              bytes_left fields.1.rest (Encode.text name.0)
                                                name.1.rest e4 a3 in
                                            let e5 = read_bytes-eq-ok head.0 name.1 head.1 a4 h5 in
                                            let a5 =
                                              bytes_left name.1.rest (Encode.bytes head.0)
                                                head.1.rest e5 a4 in
                                            let e6 =
                                              read_text-eq-ok tagged.0 head.1 tagged.1 a5 h7 in
                                            let a6 =
                                              bytes_left head.1.rest (Encode.text tagged.0)
                                                tagged.1.rest e6 a5 in
                                            let used =
                                              item-eq-ok crate (max_depth + 1) found.0 tagged.1
                                                found.1 a6 h9 in
                                            let e7 : tagged.1.rest ≡ used.part =
                                              used.split
                                              ∙ ap (λ l. used.part ++ l) (finish-eq-ok found.1 h10)
                                              ∙ append-nil used.part in
                                            let header_is =
                                              Varsig.RoundTrip.header_encode-decode head.0 header
                                                (inner_bytes head.0 head.1.rest
                                                  (subst (All IsByte) e5 a4))
                                                h6 in
                                            subst
                                              (λ (p : Envelope C × Ipld C). IsToken bytes p.0 p.1)
                                              (ok-injective k16)
                                              (
                                                used.part,
                                                used.same,
                                                sym (
                                                    e1
                                                    ∙ ap₂ (λ k l. Encode.head 4 k ++ l)
                                                        (is_two items.0 two)
                                                        (e2
                                                          ∙ ap₂ (λ b l. Encode.bytes b ++ l)
                                                            (sym (
                                                            new_signature-eq-ok header.algorithm
                                                            sig.0 signature h11))
                                                            (e3
                                                            ∙ ap₂ (λ k l. Encode.head 5 k ++ l)
                                                            (is_two fields.0 two')
                                                            (e4
                                                            ∙ ap₂ (λ t l. Encode.text t ++ l)
                                                            (text_eq→eq name.0 (codes "h") is_h)
                                                            (e5
                                                            ∙ ap₂ (λ b l. Encode.bytes b ++ l)
                                                            (sym header_is)
                                                            (e6
                                                            ∙ ap₂ (λ t l. Encode.text t ++ l)
                                                            (sym (from_tag-strict tagged.0 kind h8))
                                                            e7)))))),
                                                refl,
                                                refl,
                                                value-HasOrder crate tagged.1 found.1 found.0 a6 h9,
                                              ))))))))))))))))
