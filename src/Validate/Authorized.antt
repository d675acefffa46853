-- ===== src/Validate/Authorized.antt =====
-- src/validate.rs: which invocations `validate` accepts.
use pq_ucan.Base.{
  ℕ, leb, ◌≤◌, ◌≡◌, ◌↔◌, refl, subst, Bool, true, false, not, List, Option, none, some, length, All,
  arith, ok, >>=-eq-ok, ok-injective, ensure_iff, map_err_iff, step_iff,
}
use pq_ucan.Command.{covers}
use pq_ucan.Command.Laws.{IsCommand}
use pq_ucan.Base.{ensure}
use pq_ucan.Crypto.{Backend}
use pq_ucan.Did.{Did, same_principal}
use pq_ucan.Ipld.{Ipld}
use pq_ucan.Policy.Eval.{check}
use pq_ucan.Policy.Eval.Laws.{Holds, check_iff}
use pq_ucan.Token.{
  Delegation, Invocation, delegation_time, invocation_time, verify_delegation, verify_invocation,
  executor_of,
}
use pq_ucan.Validate.Errors.{
  Hop, proof, ValidationError, missing_proof, policy_rejected, time_error, signature_error,
}
use pq_ucan.Validate.Loops.{for_each, for_each-All, Found, collect, collect_iff, look_up}
use pq_ucan.Validate.Pipeline.{
  Validator, check_count, issuers_of, check_hop_time, check_hop_standing, revocation_loop,
  check_revocations, check_executor, check_hop_signature, verify_chain, check_policy, check_chain,
  authorize,
}
use pq_ucan.Validate.Structure.{Structured, check_structure_iff, covers_last}

abbrev pub WithinLimit : Option ℕ → ℕ → Type 0
WithinLimit none count = Unit
WithinLimit (some max) count = count ≤ max

abbrev pub AddressedTo : Option Did → Did → Type 0
AddressedTo none target = Unit
AddressedTo (some me) target = same_principal target me ≡ true

module _ {C : Type 0} where
  -- No delegation is revoked for a chain with these issuers.
  abbrev pub Standing : Option (C → List Did → Bool) → List Did → List (Delegation C) → Type 0
  Standing none issuers ds = Unit
  Standing (some is_revoked) issuers ds = All (λ d. is_revoked d.envelope.cid issuers ≡ false) ds

  count_iff :
      (max : Option ℕ) (count : ℕ) → (check_count {C = C} max count ≡ ok tt) ↔ WithinLimit max count
  count_iff none count = (λ _. tt, λ _. refl)
  count_iff (some max) count =
      let e = ensure_iff (leb count max) _ in (λ h. ground (arith, e.0 h), λ h. e.1 (ground arith))

  executor_iff :
      (me : Option Did) (target : Did)
      → (check_executor {C = C} me target ≡ ok tt) ↔ AddressedTo me target
  executor_iff none target = (λ _. tt, λ _. refl)
  executor_iff (some me) target = ensure_iff (same_principal target me) _

  pub revocations_iff :
      (v : Validator C) (hops chain : List (Delegation C))
      → (check_revocations v hops chain ≡ ok tt) ↔ Standing v.revocations (issuers_of chain) hops
  unfolding check_revocations
  revocations_iff v hops chain = loop_iff v.revocations
    where
      loop_iff :
          (r : Option (C → List Did → Bool))
          → (revocation_loop r (issuers_of chain) hops ≡ ok tt) ↔ Standing r (issuers_of chain) hops
      loop_iff none = (λ _. tt, λ _. refl)
      loop_iff (some is_revoked) =
          for_each-All (λ d. is_revoked d.envelope.cid (issuers_of chain) ≡ false)
            (check_hop_standing is_revoked (issuers_of chain)) hops
            (λ i d. not_revoked (is_revoked d.envelope.cid (issuers_of chain)) _)
        where
          not_revoked :
              (b : Bool) (e : ValidationError C) → (ensure (not b) e ≡ ok tt) ↔ (b ≡ false)
          not_revoked true e = (λ h. cc, λ h. cc)
          not_revoked false e = (λ _. refl, λ _. refl)

module _ {C : Type 0} (crypto : Backend) where
  -- Every delegation's signature verifies under its issuer's key.
  abbrev pub Signed : Validator C → List (Delegation C) → Type 0
  Signed v ds = All (λ d. verify_delegation crypto v.resolver d ≡ ok tt) ds

  abbrev pub InTime : Validator C → List (Delegation C) → Type 0
  InTime v ds = All (λ d. delegation_time d v.now v.skew ≡ ok tt) ds

  pub verify_chain_iff :
      (v : Validator C) (chain : List (Delegation C))
      → (verify_chain crypto v chain ≡ ok tt) ↔ Signed v chain
  unfolding verify_chain
  verify_chain_iff v chain =
      for_each-All (λ d. verify_delegation crypto v.resolver d ≡ ok tt)
        (check_hop_signature crypto v) chain
        (λ i d. map_err_iff (signature_error (proof i)) (verify_delegation crypto v.resolver d) tt)

  pub times_iff :
      (v : Validator C) (chain : List (Delegation C))
      → (for_each 0 (check_hop_time v) chain ≡ ok tt) ↔ InTime v chain
  times_iff v chain =
      for_each-All (λ d. delegation_time d v.now v.skew ≡ ok tt) (check_hop_time v) chain
        (λ i d. map_err_iff (time_error (proof i)) (delegation_time d v.now v.skew) tt)

module _ {C : Type 0} (same_cid : C → C → Bool) (crypto : Backend) where
  abbrev pub Permitted : Ipld C → List (Delegation C) → Type 0
  Permitted args ds = All (λ d. Holds same_cid args d.payload.policy) ds

  policies_iff :
      (args : Ipld C) (chain : List (Delegation C))
      → (for_each 0 (check_policy same_cid args) chain ≡ ok tt) ↔ Permitted args chain
  policies_iff args chain =
      for_each-All (λ d. Holds same_cid args d.payload.policy) (check_policy same_cid args) chain
        (λ i d.
          let outer =
            map_err_iff (policy_rejected (proof i)) (check same_cid d.payload.policy args) tt in
          let inner = (check_iff same_cid d.payload.policy args).0 in
          (λ h. inner.0 (outer.0 h), λ h. outer.1 (inner.1 h)))

  -- What a chain must be for an invocation to have authority from it.
  abbrev pub Conforms : Validator C → Invocation C → List (Delegation C) → Type 0
  Conforms v inv chain =
      Structured chain inv.payload.subject (some (inv.payload.issuer, inv.payload.command))
      × (InTime crypto v chain
          × ((invocation_time inv v.now v.skew ≡ ok tt)
              × (Signed crypto v chain
                  × ((verify_invocation crypto v.resolver inv ≡ ok tt)
                      × (Standing v.revocations (issuers_of chain) chain
                          × (Permitted (Ipld.map inv.payload.args) chain
                              × AddressedTo v.executor (executor_of inv)))))))

  check_chain_iff :
      (v : Validator C) (inv : Invocation C) (chain : List (Delegation C))
      → (check_chain same_cid crypto v inv chain ≡ ok tt) ↔ Conforms v inv chain
  unfolding check_chain
  check_chain_iff v inv chain =
      step_iff
        (check_structure_iff chain inv.payload.subject
          (some (inv.payload.issuer, inv.payload.command)))
        (step_iff (times_iff crypto v chain) (
          step_iff (map_err_iff (time_error Hop.invocation) (invocation_time inv v.now v.skew) tt) (
            step_iff (verify_chain_iff crypto v chain) (
              step_iff
                (map_err_iff (signature_error Hop.invocation)
                  (verify_invocation crypto v.resolver inv) tt)
                (step_iff (revocations_iff v chain chain) (
                  step_iff (policies_iff (Ipld.map inv.payload.args) chain)
                    (executor_iff v.executor (executor_of inv))))))))

  pub record Authorized (v : Validator C) (inv : Invocation C) (chain : List (Delegation C))
      : Type 0 where
    pub limited : WithinLimit v.max_proofs (length inv.payload.proofs)
    pub found : Found v.store inv.payload.proofs chain
    pub conforms : Conforms v inv chain

  -- `validate` passes its checks in front of the replay guard, with this chain, exactly when: the
  -- proofs are within the limit; the chain is what the store holds under them, in order; the chain
  -- starts with a delegation by the subject and each delegation grants to the next token; every
  -- token is in time and its signature verifies; no delegation is revoked; every policy holds of the
  -- arguments; and the invocation is addressed to the executor.
  pub authorize_iff :
      (v : Validator C) (inv : Invocation C) (chain : List (Delegation C))
      → (authorize same_cid crypto v inv ≡ ok chain) ↔ Authorized v inv chain
  unfolding authorize
  authorize_iff v inv chain =
      let proofs = inv.payload.proofs in
      let count = count_iff v.max_proofs (length proofs) in
      let missing : C → ValidationError C = missing_proof in
      let lookup = collect_iff v.store missing proofs in
      (
        λ h.
            let (_, a, h1) = >>=-eq-ok (check_count v.max_proofs (length proofs)) _ h in
            let (found, b, h2) = >>=-eq-ok (collect (look_up v.store missing) proofs) _ h1 in
            let (_, c, h3) = >>=-eq-ok (check_chain same_cid crypto v inv found) _ h2 in
            let same : found ≡ chain = ok-injective h3 in
            record {
              limited = count.0 a;
              found =
                  (lookup chain).0
                    (subst (λ x. collect (look_up v.store missing) proofs ≡ ok x) same b);
              conforms =
                  (check_chain_iff v inv chain).0
                    (subst (λ x. check_chain same_cid crypto v inv x ≡ ok tt) same c);
            },
        λ s.
            rw
              (
                count.1 s.limited,
                (lookup chain).1 s.found,
                (check_chain_iff v inv chain).1 s.conforms,
              )
              refl,
      )

  -- An accepted chain only ever narrows what is granted: each of its delegations is for a command
  -- that covers the invocation's, where these and the invocation's are commands that `parse` can
  -- return.
  pub authorize-attenuates :
      (v : Validator C) (inv : Invocation C) (chain : List (Delegation C))
      → IsCommand inv.payload.command
      → All (λ d. IsCommand d.payload.command) chain
      → authorize same_cid crypto v inv ≡ ok chain
      → All (λ d. covers d.payload.command inv.payload.command ≡ true) chain
  authorize-attenuates v inv chain hi hc h =
      let s = ((authorize_iff v inv chain).0 h).conforms.0 in
      covers_last chain inv.payload.issuer inv.payload.command hi hc s.linked
