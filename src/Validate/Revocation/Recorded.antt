-- ===== src/Validate/Revocation/Recorded.antt =====
-- src/validate/revocation.rs with src/validate.rs: what recording an accepted revocation does to later
-- validations.
use pq_ucan.Base.{
  ◌≡◌, ◌≢◌, sym, subst, ◌∙◌, Bool, true, false, ◌||◌, if◌then◌else◌, List, [], ◌∷◌, some, last?,
  All, ok, arith,
}
use pq_ucan.Crypto.{Backend}
use pq_ucan.Did.{Did}
use pq_ucan.Token.{Delegation, Invocation}
use pq_ucan.Validate.Authorized.{Standing, authorize_iff}
use pq_ucan.Validate.Map.{IsEquality}
use pq_ucan.Validate.Pipeline.{Validator, issuers_of, authorize}
use pq_ucan.Validate.Revocation.{AcceptedRevocation, check_revocation}
use pq_ucan.Validate.Stores.{Revoked, record_revocation, is_revoked}
use pq_ucan.Validate.Stores.Laws.{issued_by, is_revoked-record}
use pq_ucan.Validate.Revocation.Accepted.{check_revocation-Sound}

All-last : {A : Type 0} (P : A → Type 0) (xs : List A) (x : A) → All P xs → last? xs ≡ some x → P x
All-last P [] x h e = cc
All-last P (y ∷ []) x h e = let same : y ≡ x = cc in subst P same h.0
All-last P (y ∷ z ∷ xs) x h e = All-last P (z ∷ xs) x h.1 e

not_target :
    (issued before is_target : Bool)
    → issued ≡ true
    → (before || (if is_target then issued else false)) ≡ false
    → is_target ≡ false
not_target issued before is_target h e = ground arith

module _ {C : Type 0} (same_cid : C → C → Bool) (lawful : IsEquality same_cid)
    (crypto : Backend) where
  Standing-record :
      (store : Revoked same_cid) (a : AcceptedRevocation C) (issuers : List Did)
      (ds : List (Delegation C))
      → Standing
          (some (
            is_revoked same_cid
              (record_revocation same_cid store a.target a.authority a.target_expiry)))
          issuers
          ds
      → issued_by a.authority issuers ≡ true
      → All (λ d. same_cid a.target d.envelope.cid ≡ false) ds
  Standing-record store a issuers [] s h = tt
  Standing-record store a issuers (d ∷ ds) s h =
      let after =
        is_revoked-record same_cid lawful store a.target a.authority a.target_expiry d.envelope.cid
          issuers in
      let before = is_revoked same_cid store d.envelope.cid issuers in
      (
        not_target (issued_by a.authority issuers) before (same_cid a.target d.envelope.cid) h
            (sym after ∙ s.0),
        Standing-record store a issuers ds s.1 h,
      )

  -- Once a revocation is recorded, no validator that asks the store accepts an invocation by a chain
  -- in which the revocation's authority issued and which holds the target.
  pub record-refuses :
      (w : Validator C) (store : Revoked same_cid) (a : AcceptedRevocation C) (inv : Invocation C)
      (chain : List (Delegation C))
      → w.revocations
        ≡ some (
            is_revoked same_cid
              (record_revocation same_cid store a.target a.authority a.target_expiry))
      → authorize same_cid crypto w inv ≡ ok chain
      → issued_by a.authority (issuers_of chain) ≡ true
      → All (λ d. same_cid a.target d.envelope.cid ≡ false) chain
  record-refuses w store a inv chain asks good by =
      let (_, (_, (_, (_, (_, (standing, _)))))) =
        ((authorize_iff same_cid crypto w inv chain).0 good).conforms in
      Standing-record store a (issuers_of chain) chain
        (subst (λ r. Standing r (issuers_of chain) chain) asks standing) by

  -- A revocation that is accepted and recorded ends the chain that came with it: no validator that
  -- asks the store accepts an invocation by that chain. `same_cid` is the equality of CIDs.
  pub revocation-ends_chain :
      (v w : Validator C) (subject : Did) (revocation inv : Invocation C)
      (chain : List (Delegation C)) (a : AcceptedRevocation C) (store : Revoked same_cid)
      → check_revocation same_cid crypto v subject revocation chain ≡ ok a
      → w.revocations
        ≡ some (
            is_revoked same_cid
              (record_revocation same_cid store a.target a.authority a.target_expiry))
      → authorize same_cid crypto w inv ≢ ok chain
  revocation-ends_chain v w subject revocation inv chain a store judged asks good =
      let (sound, by, _, _) =
        check_revocation-Sound same_cid crypto v subject revocation chain a judged in
      let (d, last, names) = sound.names.last in
      let others = record-refuses w store a inv chain asks good by in
      let missed : same_cid a.target d.envelope.cid ≡ false =
        All-last (λ d. same_cid a.target d.envelope.cid ≡ false) chain d others last in
      let hit : same_cid a.target d.envelope.cid ≡ true =
        (lawful a.target d.envelope.cid).1 names in
      cc
