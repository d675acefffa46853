-- ===== src/Token.antt =====
-- src/envelope.rs, src/delegation.rs and src/invocation.rs: the tokens as decoded, with their checks of
-- signature and time. `C` stands for CIDs.
use pq_ucan.Base.{
  ℕ, List, Option, none, some, Bytes, Result, ok, ◌>>=◌, ◌>>◌, ensure, map_err, ok_or,
}
use pq_ucan.Command.{Command}
use pq_ucan.Crypto
use pq_ucan.Crypto.{Algorithm, Backend, PublicKey, Signature, algorithm_mismatch, same_algorithm}
use pq_ucan.Did.{Did}
use pq_ucan.Did.Errors.{ResolveError}
use pq_ucan.Error.{Error, TokenKind, EnvelopeError}
use pq_ucan.Ipld.{Fields}
use pq_ucan.Policy.Selector.{get_range}
use pq_ucan.Policy.Syntax.{Policy}
use pq_ucan.Time.{Timestamp, Expiry}
use pq_ucan.Time.Window.{check_window}

-- `Encoding` and `Header` of src/varsig.rs.
pub data Encoding : Type 0 where
  dag_cbor dag_json : Encoding

pub record Header : Type 0 where
  pub algorithm : Algorithm
  pub encoding : Encoding

-- What the signature covers: a range of the token's bytes, or its text form.
pub data Signed : Type 0 where
  cbor : ℕ → ℕ → Signed
  json : Bytes → Signed

pub record Envelope (C : Type 0) : Type 0 where
  pub token_bytes : Bytes
  pub cid : C
  pub header : Header
  pub signature : Signature
  pub signed : Signed
  pub kind : TokenKind

abbrev pub Resolver : Type 0
Resolver = Did → Result ResolveError PublicKey

pub data Subject : Type 0 where
  did : Did → Subject
  powerline : Subject

pub record DelegationPayload (C : Type 0) : Type 0 where
  pub issuer : Did
  pub audience : Did
  pub subject : Subject
  pub command : Command
  pub policy : Policy C
  pub nonce : Bytes
  pub meta : Fields C
  pub not_before : Option Timestamp
  pub expiration : Expiry

pub record Delegation (C : Type 0) : Type 0 where
  pub envelope : Envelope C
  pub payload : DelegationPayload C

pub record InvocationPayload (C : Type 0) : Type 0 where
  pub issuer : Did
  pub subject : Did
  pub audience : Option Did
  pub command : Command
  pub args : Fields C
  pub proofs : List C
  pub meta : Fields C
  pub nonce : Bytes
  pub expiration : Expiry
  pub issued_at : Option Timestamp
  pub cause : Option C

pub record Invocation (C : Type 0) : Type 0 where
  pub envelope : Envelope C
  pub payload : InvocationPayload C

-- The bytes under the signature.
abbrev pub signed_bytes : Bytes → Signed → Result Error Bytes
signed_bytes bytes (cbor start end') =
    ok_or (get_range bytes start end') (Error.envelope EnvelopeError.shape)
signed_bytes bytes (json text) = ok text

module _ {C : Type 0} where
  -- `Envelope::verify`.
  unfoldable pub verify_envelope : Backend → Envelope C → PublicKey → Result Error (Unit {0})
  unfolding same_algorithm get_range Crypto.verify
  verify_envelope crypto e key = do
    ensure (same_algorithm key.algorithm e.header.algorithm)
        (Error.crypto (algorithm_mismatch key.algorithm e.header.algorithm))
    signed ← signed_bytes e.token_bytes e.signed
    map_err Error.crypto (Crypto.verify crypto key signed e.signature)

  -- `Delegation::verify` and `Invocation::verify`, which differ in the issuer they read.
  abbrev pub verify_issuer : Backend → Resolver → Did → Envelope C → Result Error (Unit {0})
  verify_issuer crypto resolver issuer e = do
    key ← map_err Error.resolve (resolver issuer)
    verify_envelope crypto e key

  unfoldable pub verify_delegation : Backend → Resolver → Delegation C → Result Error (Unit {0})
  unfolding verify_envelope
  verify_delegation crypto resolver d = verify_issuer crypto resolver d.payload.issuer d.envelope

  unfoldable pub verify_invocation : Backend → Resolver → Invocation C → Result Error (Unit {0})
  unfolding verify_envelope
  verify_invocation crypto resolver i = verify_issuer crypto resolver i.payload.issuer i.envelope

  unfoldable pub delegation_time : Delegation C → Timestamp → ℕ → Result Error (Unit {0})
  unfolding check_window
  delegation_time d now skew = check_window d.payload.not_before d.payload.expiration now skew

  unfoldable pub invocation_time : Invocation C → Timestamp → ℕ → Result Error (Unit {0})
  unfolding check_window
  invocation_time i now skew = check_window none i.payload.expiration now skew

  -- `executor`: the audience if given, else the subject.
  abbrev pub executor_of : Invocation C → Did
  executor_of i = elim i.payload.audience [ some audience ↦ audience | none ↦ i.payload.subject ]
