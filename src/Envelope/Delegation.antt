-- ===== src/Envelope/Delegation.antt =====
-- src/delegation.rs: delegations decoded, assembled and built. The two parameters of a builder say
-- whether the expiry and the nonce are set.
use pq_ucan.Base.{ℕ, Bool, true, false, Option, none, some, [], Text, Bytes, Result, ok, err, ◌>>=◌}
use pq_ucan.Cid.{CidCrate, Hashing, unwrap_or}
use pq_ucan.Codec.Decode.{map_insert}
use pq_ucan.Command.{Command}
use pq_ucan.Crypto.{Algorithm}
use pq_ucan.Did.{Did}
use pq_ucan.Envelope.{DecodeOptions, strict, TextCodec, Signer, Unsigned, open_envelope, seal}
use pq_ucan.Envelope
use pq_ucan.Error.{Error, wrong_kind, delegation, invocation}
use pq_ucan.Ipld.{Ipld, Fields, end, entries, of_entries}
use pq_ucan.Payload.Delegation.{to_ipld, from_ipld}
use pq_ucan.Policy.Syntax.{Policy}
use pq_ucan.Time.{Timestamp, Expiry, at, never}
use pq_ucan.Token.{Header, Envelope, Subject, DelegationPayload, Delegation}
use pq_ucan.Varsig.{new_header}

pub record DelegationBuilder (C : Type 0) (expiry_set nonce_set : Bool) : Type 0 where
  pub audience : Did
  pub subject : Subject
  pub command : Command
  pub policy : Policy C
  pub meta : Fields C
  pub not_before : Option Timestamp
  pub expiry : Option Expiry
  pub nonce : Option Bytes

module _ {C : Type 0} where
  unfoldable pub builder : Did → Subject → Command → DelegationBuilder C false false
  builder audience subject command = record {
    audience = audience;
    subject = subject;
    command = command;
    policy = [];
    meta = end;
    not_before = none;
    expiry = none;
    nonce = none;
  }

  -- `self.transition()`.
  abbrev pub transition : {e n e' n' : Bool} → DelegationBuilder C e n → DelegationBuilder C e' n'
  transition b = record {
    audience = b.audience;
    subject = b.subject;
    command = b.command;
    policy = b.policy;
    meta = b.meta;
    not_before = b.not_before;
    expiry = b.expiry;
    nonce = b.nonce;
  }

  module _ {e n : Bool} where
    abbrev pub with_policy : DelegationBuilder C e n → Policy C → DelegationBuilder C e n
    with_policy b p = record b { policy = p }

    abbrev pub not_before : DelegationBuilder C e n → Timestamp → DelegationBuilder C e n
    not_before b t = record b { not_before = some t }

    abbrev pub with_meta : DelegationBuilder C e n → Fields C → DelegationBuilder C e n
    with_meta b m = record b { meta = m }

    abbrev pub meta_entry : DelegationBuilder C e n → Text → Ipld C → DelegationBuilder C e n
    meta_entry b k v = record b { meta = of_entries (map_insert (k, v) (entries b.meta)) }

  abbrev pub expires_at :
      {n : Bool} → DelegationBuilder C false n → Timestamp → DelegationBuilder C true n
  expires_at b t = transition (record b { expiry = some (at t) })

  abbrev pub never_expires : {n : Bool} → DelegationBuilder C false n → DelegationBuilder C true n
  never_expires b = transition (record b { expiry = some never })

  abbrev pub with_nonce :
      {e : Bool} → DelegationBuilder C e false → Bytes → DelegationBuilder C e true
  with_nonce b nonce = transition (record b { nonce = some nonce })

  unfoldable pub payload : DelegationBuilder C true true → Did → DelegationPayload C
  payload b issuer = record {
    issuer = issuer;
    audience = b.audience;
    subject = b.subject;
    command = b.command;
    policy = b.policy;
    nonce = unwrap_or b.nonce [];
    meta = b.meta;
    not_before = b.not_before;
    expiration = unwrap_or b.expiry never;
  }

module _ {M C : Type 0} (crate : CidCrate C) (hashing : Hashing M C)
    (text_codec : TextCodec C) where
  -- `sign`, with the DID of the signer.
  unfoldable pub sign : DelegationBuilder C true true → Did → Signer → Result Error (Delegation C)
  sign b issuer signer = do
    envelope ← seal crate hashing text_codec signer delegation (to_ipld (payload b issuer))
    ok record { envelope = envelope; payload = payload b issuer }

  abbrev pub prepare_with : DelegationBuilder C true true → Did → Header → Result Error Unsigned
  prepare_with b issuer header =
      Envelope.prepare crate hashing text_codec header delegation (to_ipld (payload b issuer))

  abbrev pub prepare : DelegationBuilder C true true → Did → Algorithm → Result Error Unsigned
  prepare b issuer algorithm = prepare_with b issuer (new_header algorithm)

  -- `from_parts`.
  unfoldable pub from_parts : (ℕ → Bool) → Envelope C × Ipld C → Result Error (Delegation C)
  from_parts u (e, v) = elim e.kind [
    | invocation ↦ err (Error.envelope (wrong_kind delegation invocation))
    | delegation ↦ (do p ← from_ipld u v; ok record { envelope = e; payload = p })
  ]

  unfoldable pub decode_with : (ℕ → Bool) → Bytes → DecodeOptions → Result Error (Delegation C)
  decode_with u bytes options = do
    parts ← open_envelope crate hashing text_codec bytes options
    from_parts u parts

  abbrev pub decode : (ℕ → Bool) → Bytes → Result Error (Delegation C)
  decode u bytes = decode_with u bytes strict

  unfoldable pub assemble : (ℕ → Bool) → Bytes → Bytes → Result Error (Delegation C)
  assemble u signing signature = do
    parts ← Envelope.assemble crate hashing text_codec signing signature
    from_parts u parts
