-- ===== src/Validate/Pipeline.antt =====
-- src/validate.rs: `Validator`, its pipeline `validate`, and the checks it shares with revocations.
-- `same_cid` compares CIDs, `crypto` is the signature backend, and `record_cid` is the replay guard's
-- `record` on a state `G`.
use pq_ucan.Base.{
  ℕ, leb, Bool, not, if◌then◌else◌, List, map, Option, none, some, length, Result, ok, err, ◌>>=◌,
  ◌>>◌, ensure, map_err,
}
use pq_ucan.Crypto.{Backend}
use pq_ucan.Did.{Did, same_principal}
use pq_ucan.Ipld.{Ipld}
use pq_ucan.Policy.Eval.{check}
use pq_ucan.Time.{Timestamp, Expiry}
use pq_ucan.Token.{
  Delegation, Invocation, Resolver, delegation_time, invocation_time, verify_delegation,
  verify_invocation, executor_of,
}
use pq_ucan.Validate.Chain.{check_structure}
use pq_ucan.Validate.Errors.{
  Hop, proof, ValidationError, missing_proof, too_many_proofs, policy_rejected, wrong_executor,
  revoked, time_error, signature_error,
}
use pq_ucan.Validate.Loops.{for_each, collect, look_up}

-- `Validator`, without the guard, which `validate` threads. A store is its `get`, a revocation store
-- its `is_revoked`.
pub record Validator (C : Type 0) : Type 0 where
  pub store : C → Option (Delegation C)
  pub resolver : Resolver
  pub now : Timestamp
  pub skew : ℕ
  pub executor : Option Did
  pub max_proofs : Option ℕ
  pub revocations : Option (C → List Did → Bool)

-- `Proof`: what was validated.
pub record Proof (C : Type 0) : Type 0 where
  pub chain : List (Delegation C)
  pub subject : Did
  pub invocation : C

module _ {C : Type 0} where
  -- 0: the proof limit.
  abbrev pub check_count : Option ℕ → ℕ → Result (ValidationError C) (Unit {0})
  check_count none count = ok tt
  check_count (some max) count = ensure (leb count max) (too_many_proofs count max)

  abbrev pub issuers_of : List (Delegation C) → List Did
  issuers_of = map (λ d. d.payload.issuer)

  abbrev pub check_hop_time : Validator C → ℕ → Delegation C → Result (ValidationError C) (Unit {0})
  check_hop_time v i d = map_err (time_error (proof i)) (delegation_time d v.now v.skew)

  abbrev pub check_own_time : Validator C → Invocation C → Result (ValidationError C) (Unit {0})
  check_own_time v inv = map_err (time_error Hop.invocation) (invocation_time inv v.now v.skew)

  -- Asks about `hops`, the start of a chain with these issuers, by each delegation's own CID.
  abbrev pub check_hop_standing :
      (C → List Did → Bool) → List Did → ℕ → Delegation C → Result (ValidationError C) (Unit {0})
  check_hop_standing is_revoked issuers i d =
      ensure (not (is_revoked d.envelope.cid issuers)) (revoked (proof i) d.envelope.cid)

  abbrev pub revocation_loop :
      Option (C → List Did → Bool)
      → List Did
      → List (Delegation C)
      → Result (ValidationError C) (Unit {0})
  revocation_loop none issuers hops = ok tt
  revocation_loop (some is_revoked) issuers hops =
      for_each 0 (check_hop_standing is_revoked issuers) hops

  unfoldable pub check_revocations :
      Validator C
      → List (Delegation C)
      → List (Delegation C)
      → Result (ValidationError C) (Unit {0})
  check_revocations v hops chain = revocation_loop v.revocations (issuers_of chain) hops

  -- 11: the invocation is addressed to this executor.
  abbrev pub check_executor : Option Did → Did → Result (ValidationError C) (Unit {0})
  check_executor none target = ok tt
  check_executor (some me) target = ensure (same_principal target me) (wrong_executor me target)

module _ {C : Type 0} (crypto : Backend) where
  abbrev pub check_hop_signature :
      Validator C → ℕ → Delegation C → Result (ValidationError C) (Unit {0})
  check_hop_signature v i d =
      map_err (signature_error (proof i)) (verify_delegation crypto v.resolver d)

  abbrev pub check_own_signature :
      Validator C → Invocation C → Result (ValidationError C) (Unit {0})
  check_own_signature v inv =
      map_err (signature_error Hop.invocation) (verify_invocation crypto v.resolver inv)

  unfoldable pub verify_chain :
      Validator C → List (Delegation C) → Result (ValidationError C) (Unit {0})
  unfolding verify_delegation signature_error
  verify_chain v chain = for_each 0 (check_hop_signature v) chain

module _ {C : Type 0} (same_cid : C → C → Bool) where
  -- 10: the arguments satisfy a delegation's policy.
  abbrev pub check_policy : Ipld C → ℕ → Delegation C → Result (ValidationError C) (Unit {0})
  check_policy args i d = map_err (policy_rejected (proof i)) (check same_cid d.payload.policy args)

module _ {C : Type 0} (same_cid : C → C → Bool) (crypto : Backend) where
  -- 2 to 11, on the chain that was looked up.
  unfoldable pub check_chain :
      Validator C → Invocation C → List (Delegation C) → Result (ValidationError C) (Unit {0})
  unfolding check_structure delegation_time invocation_time time_error verify_chain
      verify_invocation signature_error check_revocations check same_principal
  check_chain v inv chain = do
    check_structure chain inv.payload.subject (some (inv.payload.issuer, inv.payload.command))
    for_each 0 (check_hop_time v) chain
    check_own_time v inv
    verify_chain crypto v chain
    check_own_signature crypto v inv
    check_revocations v chain chain
    for_each 0 (check_policy same_cid (Ipld.map inv.payload.args)) chain
    check_executor v.executor (executor_of inv)

  -- 0 to 11: everything in front of the replay guard.
  unfoldable pub authorize :
      Validator C → Invocation C → Result (ValidationError C) (List (Delegation C))
  unfolding check_chain
  authorize v inv = do
    check_count v.max_proofs (length inv.payload.proofs)
    chain ← collect (look_up v.store missing_proof) inv.payload.proofs
    check_chain v inv chain
    ok chain

module _ {C : Type 0} where
  abbrev pub proof_of : Invocation C → List (Delegation C) → Proof C
  proof_of inv found = record {
    chain = found;
    subject = inv.payload.subject;
    invocation = inv.envelope.cid;
  }

module _ {C G : Type 0} (record_cid : G → C → Expiry → G × Bool) where
  -- 12: last, so that a rejected invocation is never recorded.
  abbrev pub record_replay :
      Option G
      → Invocation C
      → List (Delegation C)
      → Option G × Result (ValidationError C) (Proof C)
  record_replay none inv chain = (none, ok (proof_of inv chain))
  record_replay (some guard) inv chain =
      let (after, fresh) = record_cid guard inv.envelope.cid inv.payload.expiration in
      (
        some after,
        if fresh then ok (proof_of inv chain) else err (ValidationError.replay inv.envelope.cid),
      )

  abbrev pub finish :
      Option G
      → Invocation C
      → Result (ValidationError C) (List (Delegation C))
      → Option G × Result (ValidationError C) (Proof C)
  finish guard inv (err e) = (guard, err e)
  finish guard inv (ok chain) = record_replay guard inv chain

module _ {C G : Type 0} (same_cid : C → C → Bool) (crypto : Backend)
    (record_cid : G → C → Expiry → G × Bool) where
  -- `validate`, from the guard's state to the guard's state and the result.
  unfoldable pub validate :
      Validator C → Option G → Invocation C → Option G × Result (ValidationError C) (Proof C)
  unfolding authorize
  validate v guard inv = finish record_cid guard inv (authorize same_cid crypto v inv)
