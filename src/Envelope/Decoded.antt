-- ===== src/Envelope/Decoded.antt =====
-- src/invocation.rs and src/delegation.rs: the bytes of a token that was decoded.
use pq_ucan.Base.{
  ℕ, ◌≡◌, ◌≢◌, ◌⊎◌, inl, inr, refl, sym, ap, subst, ◌∙◌, Bool, false, Bool-cases, List, [], ◌∷◌,
  ◌++◌, Text, codes, text_eq, text_eq→eq, text_eq_iff, Bytes, All, ok, >>=-eq-ok, ok-injective,
  arith,
}
use pq_ucan.Cid.{CidCrate, Hashing}
use pq_ucan.Codec.Canonical.Maps.{HasOrder}
use pq_ucan.Codec.Heads.{IsByte}
use pq_ucan.Envelope.{TextCodec, strict, open_envelope}
use pq_ucan.Envelope.Delegation as DelegationEnvelope
use pq_ucan.Envelope.Invocation.{decode, decode_with, from_parts}
use pq_ucan.Envelope.Written.{IsToken, open_envelope-eq-ok}
use pq_ucan.Error.{TokenKind, delegation, invocation}
use pq_ucan.Ipld.{Ipld, Fields, end, field, entries}
use pq_ucan.Payload.{new_fields}
use pq_ucan.Payload.Delegation
use pq_ucan.Payload.Invocation.{from_ipld, to_ipld}
use pq_ucan.Payload.RoundTrip.{
  invocation_to_ipld-from_ipld, delegation_to_ipld-from_ipld, IsNotEmptyMeta,
}
use pq_ucan.Token.{
  Envelope, InvocationPayload, Invocation, DelegationPayload, Delegation as DelegationToken,
}

kind_cases : (k : TokenKind) → (k ≡ delegation) ⊎ (k ≡ invocation)
kind_cases delegation = inl refl
kind_cases invocation = inr refl

module _ {C : Type 0} where
  to_ipld-from_ipld :
      (u : ℕ → Bool) (v : Ipld C) (p : InvocationPayload C)
      → HasOrder v
      → from_ipld u v ≡ ok p
      → to_ipld p ≡ v
  to_ipld-from_ipld u (Ipld.map fs) p sorted h = invocation_to_ipld-from_ipld u fs p sorted h
  to_ipld-from_ipld u _ p sorted h = unfold from_ipld new_fields in cc

  -- An entry `meta` that is an empty map, which `to_ipld` of a delegation leaves out.
  pub data HasEmptyMeta : Ipld C → Type 0 where
    empty_meta :
        (fs : Fields C) (front back : List (Text × Ipld C))
        → entries fs ≡ front ++ (codes "meta", Ipld.map end) ∷ back
        → HasEmptyMeta (Ipld.map fs)

  empty_meta_cases :
      (k : Text) (v : Ipld C)
      → (◌≡◌ {A = Text × Ipld C} (k, v) (codes "meta", Ipld.map end)) ⊎ IsNotEmptyMeta (k, v)
  empty_meta_cases k (Ipld.map end) = elim (Bool-cases (text_eq k (codes "meta"))) [
    | inl same ↦ inl (ap (λ l. (l, Ipld.map end)) (text_eq→eq k (codes "meta") same))
    | inr other ↦ inr (λ e. other_name (other) (ap (λ (p : Text × Ipld C). p.0) e))
  ]
    where
      other_name : text_eq k (codes "meta") ≡ false → k ≢ codes "meta"
      other_name other e = cc ((text_eq_iff k (codes "meta")).1 e)
  empty_meta_cases k (Ipld.map (field l v fs)) = inr (λ e. cc)
  empty_meta_cases k _ = inr (λ e. cc)

  meta_cases :
      (es : List (Text × Ipld C))
      → All IsNotEmptyMeta es
        ⊎ ((front : List (Text × Ipld C)) × (back : List (Text × Ipld C)) × (es
              ≡ front ++ (codes "meta", Ipld.map end) ∷ back))
  meta_cases [] = inl tt
  meta_cases ((k, v) ∷ es) = elim (empty_meta_cases k v) [
    | inl here ↦ inr ([], es, ap (λ e. e ∷ es) here)
    | inr other ↦ elim (meta_cases es) [
      | inl rest ↦ inl (other, rest)
      | inr (front, back, cut) ↦ inr ((k, v) ∷ front, back, ap (λ l. (k, v) ∷ l) cut)
    ]
  ]

  delegation_written :
      (u : ℕ → Bool) (v : Ipld C) (p : DelegationPayload C)
      → HasOrder v
      → Delegation.from_ipld u v ≡ ok p
      → (Delegation.to_ipld p ≡ v) ⊎ HasEmptyMeta v
  delegation_written u (Ipld.map fs) p sorted h = elim (meta_cases (entries fs)) [
    | inl full ↦ inl (delegation_to_ipld-from_ipld u fs p sorted full h)
    | inr (front, back, cut) ↦ inr (HasEmptyMeta.empty_meta fs front back cut)
  ]
  delegation_written u _ p sorted h = unfold Delegation.from_ipld new_fields in cc

module _ {M C : Type 0} (crate : CidCrate C) (hashing : Hashing M C)
    (text_codec : TextCodec C) where
  -- The envelope and the payload that an invocation was made of.
  from_parts-eq-ok :
      (u : ℕ → Bool) (e : Envelope C) (v : Ipld C) (i : Invocation C)
      → from_parts crate hashing text_codec u (e, v) ≡ ok i
      → (i.envelope ≡ e) × (e.kind ≡ invocation) × (from_ipld u v ≡ ok i.payload)
  unfolding from_parts
  from_parts-eq-ok u e v i h = elim (kind_cases e.kind) [
    | inl other ↦ ground arith
    | inr right ↦
        let (p, read, h1) = >>=-eq-ok (from_ipld u v) _ (rw right at h) in
        let same : record { envelope = e; payload = p } ≡ i = ok-injective h1 in
        (
          sym (ap (λ (k : Invocation C). k.envelope) same),
          right,
          read ∙ ap (λ (k : Invocation C). ok k.payload) same,
        )
  ]

  -- An invocation that `decode` takes is the one token of its envelope and payload: the bytes are the
  -- signature, the header, the tag of invocations, and what `to_ipld` makes of the payload, encoded.
  pub decode_invocation-eq-ok :
      (u : ℕ → Bool) (bytes : Bytes) (i : Invocation C)
      → All IsByte bytes
      → decode crate hashing text_codec u bytes ≡ ok i
      → (i.envelope.kind ≡ invocation)
        × IsToken crate hashing text_codec bytes i.envelope (to_ipld i.payload)
  unfolding decode_with
  decode_invocation-eq-ok u bytes i all h =
      let ((e, v), opened, h1) =
        >>=-eq-ok (open_envelope crate hashing text_codec bytes strict) _ h in
      let token = open_envelope-eq-ok crate hashing text_codec bytes e v all opened in
      let (envelope, kind, read) = from_parts-eq-ok u e v i h1 in
      let written = to_ipld-from_ipld u v i.payload token.5 read in
      (
        ap (λ (k : Envelope C). k.kind) envelope ∙ kind,
        subst (λ k. IsToken crate hashing text_codec bytes k (to_ipld i.payload)) (sym envelope)
            (subst (IsToken crate hashing text_codec bytes e) (sym written) token),
      )

  delegation_from_parts-eq-ok :
      (u : ℕ → Bool) (e : Envelope C) (v : Ipld C) (d : DelegationToken C)
      → DelegationEnvelope.from_parts crate hashing text_codec u (e, v) ≡ ok d
      → (d.envelope ≡ e) × (e.kind ≡ delegation) × (Delegation.from_ipld u v ≡ ok d.payload)
  unfolding DelegationEnvelope.from_parts
  delegation_from_parts-eq-ok u e v d h = elim (kind_cases e.kind) [
    | inr other ↦ ground arith
    | inl right ↦
        let (p, read, h1) = >>=-eq-ok (Delegation.from_ipld u v) _ (rw right at h) in
        let same : record { envelope = e; payload = p } ≡ d = ok-injective h1 in
        (
          sym (ap (λ (k : DelegationToken C). k.envelope) same),
          right,
          read ∙ ap (λ (k : DelegationToken C). ok k.payload) same,
        )
  ]

  -- A delegation that `decode` takes was read from the value in its envelope, and the bytes are the
  -- signature, the header, the tag of delegations and that value, encoded. The value is what
  -- `to_ipld` makes of the payload, unless it has an empty `meta`, which `to_ipld` leaves out.
  pub decode_delegation-eq-ok :
      (u : ℕ → Bool) (bytes : Bytes) (d : DelegationToken C)
      → All IsByte bytes
      → DelegationEnvelope.decode crate hashing text_codec u bytes ≡ ok d
      → (d.envelope.kind ≡ delegation)
        × (v : Ipld C) × (Delegation.from_ipld u v ≡ ok d.payload)
        × IsToken crate hashing text_codec bytes d.envelope v
        × ((Delegation.to_ipld d.payload ≡ v) ⊎ HasEmptyMeta v)
  unfolding DelegationEnvelope.decode_with
  decode_delegation-eq-ok u bytes d all h =
      let ((e, v), opened, h1) =
        >>=-eq-ok (open_envelope crate hashing text_codec bytes strict) _ h in
      let token = open_envelope-eq-ok crate hashing text_codec bytes e v all opened in
      let (envelope, kind, read) = delegation_from_parts-eq-ok u e v d h1 in
      (
        ap (λ (k : Envelope C). k.kind) envelope ∙ kind,
        v,
        read,
        subst (λ k. IsToken crate hashing text_codec bytes k v) (sym envelope) token,
        delegation_written u v d.payload token.5 read,
      )
