-- ===== src/Lib.antt =====
-- A model of pq-ucan, a library for UCAN tokens with classical and post-quantum signatures, in the
-- crate under src.
--
-- A principal delegates authority by signing a delegation to another, for a command and under a
-- policy on the arguments. An invocation names a chain of delegations, and `Validator::validate`
-- decides whether the chain gives its issuer the authority. A revocation is an invocation of
-- `/ucan/revoke` that ends a chain.
--
-- The parts, each with its source:
-- - Time, Time/Window: src/time.rs. A timestamp is an integer within 53 bits, and `plus_seconds` and
--   `minus_seconds` saturate as i64 does and then at that bound.
-- - Command: src/command.rs. A command is its text, a list of code points. The test for upper case
--   characters, which is a table of the language, is a parameter.
-- - Did: src/did.rs. Its text is a list of code points, and the tests on bytes are made on its UTF-8
--   (Base/Utf8). Did/Key has the keys in `did:key` and `KeyResolver`, and Did/Grammar the grammar of
--   DIDs, by characters, that `parse` is compared with.
-- - Ipld: the values of the crate ipld-core. Float: the f64 operations that are called, on 64 bits.
-- - Policy: src/policy. Glob is glob.rs, Selector is selector.rs (its parser is Selector/Parse),
--   Syntax, Wire, Number and Eval are mod.rs: the statements, `from_ipld` and `to_ipld`, comparison
--   and equality, and `holds` and `check`. A usize has 64 bits.
-- - Crypto: src/crypto/mod.rs. The functions of its module `backend` are a record of functions.
-- - Error: the error types of src/error.rs, src/varsig.rs and src/envelope.rs.
-- - Codec: src/codec, its errors in Codec.antt itself. Reader and Decode are decode.rs, with the
--   cursor as the bytes that are left and their position, Encode is encode.rs, where what is appended
--   is returned, Order and Sorted the order of map keys, Varint is varint.rs. Heads, Canonical and
--   Readback have the proofs: on heads, from bytes to values, and from values to bytes.
-- - Cid: src/cid.rs. Varsig: src/varsig.rs.
-- - Token: the tokens of src/envelope.rs, src/delegation.rs and src/invocation.rs once decoded, with
--   `verify` and `check_time`.
-- - Payload: the fields of a payload in src/envelope.rs, and `to_ipld` and `from_ipld` of
--   src/delegation.rs and src/invocation.rs.
-- - Envelope: src/envelope.rs, and in its children the decoding and the builders of
--   src/delegation.rs and src/invocation.rs. The two const parameters of a builder are parameters of
--   its type.
-- - Validate: src/validate.rs and src/validate/revocation.rs. Chain is `check_structure`, Pipeline
--   is `Validator`, Stores are the stores in memory, Revocation judges revocations. The type of CIDs
--   and its equality, the backend, the proof store and the resolver are parameters; the replay
--   guard is a state that `validate` takes and returns.
-- - Examples: concrete tokens, policies and texts.
--
-- A `Result` with `?` is Base/Results, where `>>=` and do blocks stand for `?`. A `BTreeMap` is an
-- association list without its order (Validate/Map), or a list of entries in the order of the keys
-- (Ipld).
--
-- Some loops run on fuel, and one recursion on the depth that the source counts. The matcher of
-- glob patterns has one unit for each pair of a character and a token, and one more: each retry
-- moves the saved star by one character, and between two retries each round moves on by one
-- token at least. The selector parser has fuel for each character, since every step reads one,
-- and Float counts the binary digits of an i128 with 128 units. A varint has at most ten groups,
-- and the segments of a header at most one for each byte. An item of the codec may nest to
-- `MAX_DEPTH`, and the model counts down what is left of it. All other loops are structural.
--
-- Not modelled: the text codec of src/codec/json.rs, which the envelope takes as a pair of functions;
-- the cryptography, base58, SHA-256 and the crate of CIDs, which are parameters; random nonces and
-- clocks, which are I/O; `Display` and `Debug`.
pub mod Base
pub mod Time
pub mod Command
pub mod Did
pub mod Ipld
pub mod Float
pub mod Policy
pub mod Crypto
pub mod Codec
pub mod Cid
pub mod Error
pub mod Token
pub mod Validate
pub mod Varsig
pub mod Payload
pub mod Envelope
mod Examples
