-- ===== src/Varsig/RoundTrip.antt =====
-- src/varsig.rs: headers written and read back, and read and written again.
use pq_ucan.Base.{
  ℕ, ◌≡◌, refl, sym, ap, ap₂, subst, ◌∙◌, List, [], ◌∷◌, ◌++◌, Bytes, ok, All, some, Bool, true,
  length, arith, inl, inr, Bool-cases, Option-cases, ok-injective, some-injective, >>=-eq-ok, ok_or,
  ok_or-eq-ok, text_eq, text_eq→eq, append_assoc, append-nil,
}
use pq_ucan.Codec.Heads.{IsByte}
use pq_ucan.Codec.Varint.{put_uvarint}
use pq_ucan.Crypto.{
  Algorithm, ed25519, p256, secp256k1, ml_dsa44, ml_dsa65, ml_dsa87, from_multicodec, multicodec,
  find, all_algorithms,
}
use pq_ucan.Codec.Varint
use pq_ucan.Error.{VarsigError}
use pq_ucan.Token.{Encoding, Header, dag_cbor, dag_json}
use pq_ucan.Varsig.Segments.{read_segments-eq-ok}
use pq_ucan.Varsig.{
  encode, decode, segments, read_segments, header_of, algorithm_of, from_code, code_of,
  put_segments, strip_byte, split_last, unknown_segments, prefix_byte, version_byte,
}

back :
    (a : Algorithm) (e : Encoding)
    → decode (encode (record { algorithm = a; encoding = e }))
      ≡ ok (record { algorithm = a; encoding = e })
unfolding decode encode segments code_of from_code header_of algorithm_of read_segments
    Varint.put_uvarint Varint.read_uvarint Varint.put_groups Varint.read_groups from_multicodec
    multicodec
back ed25519 dag_cbor = refl
back ed25519 dag_json = refl
back p256 dag_cbor = refl
back p256 dag_json = refl
back secp256k1 dag_cbor = refl
back secp256k1 dag_json = refl
back ml_dsa44 dag_cbor = refl
back ml_dsa44 dag_json = refl
back ml_dsa65 dag_cbor = refl
back ml_dsa65 dag_json = refl
back ml_dsa87 dag_cbor = refl
back ml_dsa87 dag_json = refl

-- Every header is read back as it was written.
pub header_decode-encode : (h : Header) → decode (encode h) ≡ ok h
header_decode-encode h = back h.algorithm h.encoding

split_last-eq-some :
    (vs : List ℕ) (last : ℕ) (front : List ℕ)
    → split_last vs ≡ some (last, front)
    → vs ≡ front ++ (last ∷ [])
split_last-eq-some [] last front h = cc
split_last-eq-some (v ∷ []) last front h = cc
split_last-eq-some (v ∷ w ∷ vs) last front h = elim (Option-cases (split_last (w ∷ vs))) [
  | inl nothing ↦ ground arith
  | inr ((end, before), found) ↦
      let same : (end, v ∷ before) ≡ (last, front) = some-injective (rw found at h) in
      ap (λ l. v ∷ l) (split_last-eq-some (w ∷ vs) end before found)
      ∙ ap (λ (p : ℕ × List ℕ). p.1 ++ (p.0 ∷ [])) same
]

put_segments-append :
    (vs ws : List ℕ) → put_segments (vs ++ ws) ≡ put_segments vs ++ put_segments ws
put_segments-append [] ws = refl
put_segments-append (v ∷ vs) ws =
    ap (λ l. put_uvarint v ++ l) (put_segments-append vs ws)
    ∙ sym (append_assoc (put_uvarint v) (put_segments vs) (put_segments ws))

find-eq-some :
    (p : Algorithm → Bool) (xs : List Algorithm) (a : Algorithm) → find p xs ≡ some a → p a ≡ true
find-eq-some p [] a h = cc
find-eq-some p (x ∷ xs) a h = elim (Bool-cases (p x)) [
  | inl holds ↦ subst (λ k. p k ≡ true) (some-injective (rw holds at h)) holds
  | inr fails ↦ find-eq-some p xs a (rw fails at h)
]

algorithm_of-eq-ok :
    (found : List ℕ) (a : Algorithm) → algorithm_of found ≡ ok a → segments a ≡ found
unfolding algorithm_of
algorithm_of-eq-ok found a h = text_eq→eq (segments a) found (
    find-eq-some (λ k. text_eq (segments k) found) all_algorithms a
      (ok_or-eq-ok (find (λ k. text_eq (segments k) found) all_algorithms) (unknown_segments found)
        h))

from_code-eq-some : (code : ℕ) (e : Encoding) → from_code code ≡ some e → code_of e ≡ code
unfolding from_code code_of
from_code-eq-some code dag_cbor h = ground arith
from_code-eq-some code dag_json h = ground arith

header_of-eq-ok :
    (vs : List ℕ) (h : Header)
    → header_of vs ≡ ok h
    → vs ≡ segments h.algorithm ++ (code_of h.encoding ∷ [])
unfolding header_of
header_of-eq-ok vs h e =
    let ((code, found), split, e1) = >>=-eq-ok (ok_or (split_last vs) VarsigError.truncated) _ e in
    let (a, named, e2) = >>=-eq-ok (algorithm_of found) _ e1 in
    let (encoding, coded, e3) =
      >>=-eq-ok (ok_or (from_code code) (VarsigError.unsupported_encoding code)) _ e2 in
    let same : record { algorithm = a; encoding = encoding } ≡ h = ok-injective e3 in
    split_last-eq-some vs code found (ok_or-eq-ok (split_last vs) VarsigError.truncated split)
    ∙ ap₂ (λ l c. l ++ (c ∷ [])) (sym (algorithm_of-eq-ok found a named))
        (sym (
          from_code-eq-some code encoding
            (ok_or-eq-ok (from_code code) (VarsigError.unsupported_encoding code) coded)))
    ∙ ap (λ (k : Header). segments k.algorithm ++ (code_of k.encoding ∷ [])) same

strip_byte-eq-some :
    (byte : ℕ) (bytes rest : Bytes) → strip_byte byte bytes ≡ some rest → bytes ≡ byte ∷ rest
strip_byte-eq-some byte [] rest h = cc
strip_byte-eq-some byte (b ∷ bytes) rest h = ground arith

-- Bytes that `decode` takes are those that `encode` writes for the header, so a header has one form.
pub header_encode-decode :
    (bytes : Bytes) (h : Header) → All IsByte bytes → decode bytes ≡ ok h → encode h ≡ bytes
unfolding decode encode
header_encode-decode bytes h all e =
    let (versioned, first, e1) =
      >>=-eq-ok (ok_or (strip_byte prefix_byte bytes) VarsigError.prefix) _ e in
    let (rest, second, e2) =
      >>=-eq-ok (ok_or (strip_byte version_byte versioned) VarsigError.version) _ e1 in
    let (vs, read, e3) = >>=-eq-ok (read_segments (length rest) rest) _ e2 in
    let front : bytes ≡ prefix_byte ∷ version_byte ∷ rest =
      strip_byte-eq-some prefix_byte bytes versioned
        (ok_or-eq-ok (strip_byte prefix_byte bytes) VarsigError.prefix first)
      ∙ ap (λ l. prefix_byte ∷ l)
          (strip_byte-eq-some version_byte versioned rest
            (ok_or-eq-ok (strip_byte version_byte versioned) VarsigError.version second)) in
    let written =
      read_segments-eq-ok (length rest) rest vs (subst (All IsByte) front all).1.1 read in
    let body : put_segments (segments h.algorithm) ++ put_uvarint (code_of h.encoding) ≡ rest =
      ap (λ l. put_segments (segments h.algorithm) ++ l)
        (sym (append-nil (put_uvarint (code_of h.encoding))))
      ∙ sym (put_segments-append (segments h.algorithm) (code_of h.encoding ∷ []))
      ∙ ap put_segments (sym (header_of-eq-ok vs h e3))
      ∙ written in
    ap (λ l. prefix_byte ∷ version_byte ∷ l) body ∙ sym front
