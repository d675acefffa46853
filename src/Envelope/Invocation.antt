-- ===== src/Envelope/Invocation.antt =====
-- src/invocation.rs: invocations decoded, assembled and built, and the task. The two parameters of a builder say
-- whether the expiry and the nonce are set.
use pq_ucan.Base.{
  ℕ, Bool, true, false, Option, none, some, List, [], ◌∷◌, ◌++◌, not, if◌then◌else◌, codes, map_err,
  Text, Bytes, Result, ok, err, ◌>>=◌,
}
use pq_ucan.Cid.{CidCrate, Hashing, of_dag_cbor, unwrap_or}
use pq_ucan.Codec.Decode.{map_insert}
use pq_ucan.Codec.Encode.{encode}
use pq_ucan.Command.{Command}
use pq_ucan.Payload.{inserted}
use pq_ucan.Crypto.{Algorithm}
use pq_ucan.Did.{Did, same_principal}
use pq_ucan.Envelope.{DecodeOptions, strict, TextCodec, Signer, Unsigned, open_envelope, seal}
use pq_ucan.Envelope
use pq_ucan.Error.{Error, wrong_kind, delegation, invocation}
use pq_ucan.Ipld.{Ipld, Fields, end, entries, of_entries}
use pq_ucan.Payload.Invocation.{to_ipld, from_ipld}
use pq_ucan.Time.{Timestamp, Expiry, at, never}
use pq_ucan.Token.{Header, Envelope, InvocationPayload, Invocation}
use pq_ucan.Varsig.{new_header}

pub record InvocationBuilder (C : Type 0) (expiry_set nonce_set : Bool) : Type 0 where
  pub subject : Did
  pub command : Command
  pub audience : Option Did
  pub args : Fields C
  pub proofs : List C
  pub meta : Fields C
  pub issued_at : Option Timestamp
  pub cause : Option C
  pub expiry : Option Expiry
  pub nonce : Option Bytes

-- `filter(|aud| !aud.same_principal(&self.subject))`
abbrev pub other_than : Did → Option Did → Option Did
other_than subject none = none
other_than subject (some audience) =
    if not (same_principal audience subject) then some audience else none

module _ {C : Type 0} where
  unfoldable pub builder : Did → Command → InvocationBuilder C false false
  builder subject command = record {
    subject = subject;
    command = command;
    audience = none;
    args = end;
    proofs = [];
    meta = end;
    issued_at = none;
    cause = none;
    expiry = none;
    nonce = none;
  }

  -- `self.transition()`.
  abbrev pub transition : {e n e' n' : Bool} → InvocationBuilder C e n → InvocationBuilder C e' n'
  transition b = record {
    subject = b.subject;
    command = b.command;
    audience = b.audience;
    args = b.args;
    proofs = b.proofs;
    meta = b.meta;
    issued_at = b.issued_at;
    cause = b.cause;
    expiry = b.expiry;
    nonce = b.nonce;
  }

  module _ {e n : Bool} where
    abbrev pub with_audience : InvocationBuilder C e n → Did → InvocationBuilder C e n
    with_audience b audience = record b { audience = some audience }

    abbrev pub with_args : InvocationBuilder C e n → Fields C → InvocationBuilder C e n
    with_args b args = record b { args = args }

    abbrev pub arg : InvocationBuilder C e n → Text → Ipld C → InvocationBuilder C e n
    arg b k v = record b { args = of_entries (map_insert (k, v) (entries b.args)) }

    abbrev pub with_proofs : InvocationBuilder C e n → List C → InvocationBuilder C e n
    with_proofs b proofs = record b { proofs = proofs }

    abbrev pub proof : InvocationBuilder C e n → C → InvocationBuilder C e n
    proof b c = record b { proofs = b.proofs ++ (c ∷ []) }

    abbrev pub with_meta : InvocationBuilder C e n → Fields C → InvocationBuilder C e n
    with_meta b m = record b { meta = m }

    abbrev pub meta_entry : InvocationBuilder C e n → Text → Ipld C → InvocationBuilder C e n
    meta_entry b k v = record b { meta = of_entries (map_insert (k, v) (entries b.meta)) }

    abbrev pub issued_at : InvocationBuilder C e n → Timestamp → InvocationBuilder C e n
    issued_at b t = record b { issued_at = some t }

    abbrev pub cause : InvocationBuilder C e n → C → InvocationBuilder C e n
    cause b receipt = record b { cause = some receipt }

  abbrev pub expires_at :
      {n : Bool} → InvocationBuilder C false n → Timestamp → InvocationBuilder C true n
  expires_at b t = transition (record b { expiry = some (at t) })

  abbrev pub never_expires : {n : Bool} → InvocationBuilder C false n → InvocationBuilder C true n
  never_expires b = transition (record b { expiry = some never })

  abbrev pub with_nonce :
      {e : Bool} → InvocationBuilder C e false → Bytes → InvocationBuilder C e true
  with_nonce b nonce = transition (record b { nonce = some nonce })

  unfoldable pub payload : InvocationBuilder C true true → Did → InvocationPayload C
  payload b issuer = record {
    issuer = issuer;
    subject = b.subject;
    audience = other_than b.subject b.audience;
    command = b.command;
    args = b.args;
    proofs = b.proofs;
    meta = b.meta;
    nonce = unwrap_or b.nonce [];
    expiration = unwrap_or b.expiry never;
    issued_at = b.issued_at;
    cause = b.cause;
  }

module _ {M C : Type 0} (crate : CidCrate C) (hashing : Hashing M C)
    (text_codec : TextCodec C) where
  -- `sign`, with the DID of the signer.
  unfoldable pub sign : InvocationBuilder C true true → Did → Signer → Result Error (Invocation C)
  sign b issuer signer = do
    envelope ← seal crate hashing text_codec signer invocation (to_ipld (payload b issuer))
    ok record { envelope = envelope; payload = payload b issuer }

  abbrev pub prepare_with : InvocationBuilder C true true → Did → Header → Result Error Unsigned
  prepare_with b issuer header =
      Envelope.prepare crate hashing text_codec header invocation (to_ipld (payload b issuer))

  abbrev pub prepare : InvocationBuilder C true true → Did → Algorithm → Result Error Unsigned
  prepare b issuer algorithm = prepare_with b issuer (new_header algorithm)

  -- `from_parts`.
  unfoldable pub from_parts : (ℕ → Bool) → Envelope C × Ipld C → Result Error (Invocation C)
  from_parts u (e, v) = elim e.kind [
    | delegation ↦ err (Error.envelope (wrong_kind invocation delegation))
    | invocation ↦ (do p ← from_ipld u v; ok record { envelope = e; payload = p })
  ]

  unfoldable pub decode_with : (ℕ → Bool) → Bytes → DecodeOptions → Result Error (Invocation C)
  decode_with u bytes options = do
    parts ← open_envelope crate hashing text_codec bytes options
    from_parts u parts

  abbrev pub decode : (ℕ → Bool) → Bytes → Result Error (Invocation C)
  decode u bytes = decode_with u bytes strict

  unfoldable pub assemble : (ℕ → Bool) → Bytes → Bytes → Result Error (Invocation C)
  assemble u signing signature = do
    parts ← Envelope.assemble crate hashing text_codec signing signature
    from_parts u parts

  -- The CID of `{sub, cmd, args, nonce}`.
  unfoldable pub task_id : Invocation C → Result Error C
  task_id i =
      let p = i.payload in
      do
        encoded ← map_err Error.codec (
            encode crate (
              inserted (
                (codes "sub", Ipld.string p.subject)
                ∷ (codes "cmd", Ipld.string p.command)
                ∷ (codes "args", Ipld.map p.args)
                ∷ (codes "nonce", Ipld.bytes p.nonce)
                ∷ [])))
        ok (of_dag_cbor hashing encoded)
