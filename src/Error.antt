-- ===== src/Error.antt =====
-- src/error.rs, and the errors of src/varsig.rs and src/envelope.rs that it wraps.
use pq_ucan.Base.{ℕ, Text}
use pq_ucan.Codec.{CodecError}
use pq_ucan.Command.{CommandError}
use pq_ucan.Crypto.{CryptoError}
use pq_ucan.Did.Errors.{DidError, ResolveError}
use pq_ucan.Policy.Syntax.{PolicyError}
use pq_ucan.Time.{Timestamp}

pub data VarsigError : Type 0 where
  prefix version varint truncated : VarsigError
  unknown_algorithm : ℕ → VarsigError
  unsupported_parameters : VarsigError
  unsupported_encoding : ℕ → VarsigError

pub data TokenKind : Type 0 where
  delegation invocation : TokenKind

pub data EnvelopeError : Type 0 where
  shape : EnvelopeError
  unknown_tag : Text → EnvelopeError
  payload_not_map : EnvelopeError
  wrong_kind : TokenKind → TokenKind → EnvelopeError

-- A field is named by its text.
pub data PayloadError : Type 0 where
  missing unknown type_of range forbidden : Text → PayloadError

pub data Error : Type 0 where
  codec : CodecError → Error
  envelope : EnvelopeError → Error
  varsig : VarsigError → Error
  payload : PayloadError → Error
  did : DidError → Error
  command : CommandError → Error
  policy : PolicyError → Error
  crypto : CryptoError → Error
  resolve : ResolveError → Error
  not_yet_valid : Timestamp → Error
  expired : Timestamp → Error
