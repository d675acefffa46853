-- ===== src/Validate/Errors.antt =====
-- src/validate.rs: `Hop` and `ValidationError`.
use pq_ucan.Base.{ℕ}
use pq_ucan.Command.{Command}
use pq_ucan.Did.{Did}
use pq_ucan.Did.Errors.{ResolveError}
use pq_ucan.Error.{Error}
use pq_ucan.Time.{Timestamp}

pub data Hop : Type 0 where
  proof : ℕ → Hop
  invocation : Hop

pub data ValidationError (C : Type 0) : Type 0 where
  empty_chain : ValidationError C
  missing_proof : C → ValidationError C
  too_many_proofs : ℕ → ℕ → ValidationError C
  root_not_subject : Did → Did → ValidationError C
  powerline_at_root : ValidationError C
  subject_mismatch : Hop → ValidationError C
  principal_mismatch : Hop → Did → Did → ValidationError C
  command_not_covered : Hop → Command → Command → ValidationError C
  not_yet_valid expired : Hop → Timestamp → ValidationError C
  unresolvable : Hop → ResolveError → ValidationError C
  bad_signature : Hop → ValidationError C
  revoked : Hop → C → ValidationError C
  policy_rejected : Hop → ℕ → ValidationError C
  wrong_executor : Did → Did → ValidationError C
  replay : C → ValidationError C
  token : Hop → Error → ValidationError C

module _ {C : Type 0} where
  unfoldable pub time_error : Hop → Error → ValidationError C
  time_error hop (Error.not_yet_valid t) = not_yet_valid hop t
  time_error hop (Error.expired t) = expired hop t
  time_error hop e = token hop e

  unfoldable pub signature_error : Hop → Error → ValidationError C
  signature_error hop (Error.resolve e) = unresolvable hop e
  signature_error hop (Error.crypto e) = bad_signature hop
  signature_error hop e = token hop e
