-- ===== src/Did/Errors.antt =====
-- src/did.rs: `DidError` and `ResolveError`.
use pq_ucan.Base.{ℕ, Text}

pub data DidError : Type 0 where
  scheme method method_id not_key multibase base58 : DidError
  unknown_key_type : ℕ → DidError
  key : DidError

pub data ResolveError : Type 0 where
  unsupported_method : ResolveError
  did : DidError → ResolveError
  not_found : ResolveError
  failed : Text → ResolveError
