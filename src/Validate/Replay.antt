-- ===== src/Validate/Replay.antt =====
-- src/validate.rs: what `validate` does to the replay guard, and that with `MemoryReplayGuard` no
-- invocation is accepted twice.
use pq_ucan.Base.{
  ◌≡◌, ◌↔◌, refl, sym, ap, subst, ◌∙◌, ◌⊎◌, inl, inr, Bool, true, false, not, if◌then◌else◌, List,
  [], ◌∷◌, Option, none, some, Bool-cases, Result, ok, err, ok-injective,
}
use pq_ucan.Crypto.{Backend}
use pq_ucan.Time.{Expiry}
use pq_ucan.Token.{Delegation, Invocation}
use pq_ucan.Validate.Authorized.{Authorized, authorize_iff}
use pq_ucan.Validate.Errors.{ValidationError, replay}
use pq_ucan.Validate.Map.{find, insert, IsEquality, find-insert, find-insert_other}
use pq_ucan.Validate.Pipeline.{
  Validator, Proof, authorize, proof_of, record_replay, finish, validate,
}
use pq_ucan.Base.{◌≢◌}
use pq_ucan.Validate.Stores.{is_some, Seen, record_cid}

if_error :
    {A E : Type 0} (b : Bool) (a : A) (e f : E)
    → ◌≡◌ {A = Result E A} (if b then ok a else err f) (err e)
    → e ≡ f
if_error true a e f h = cc
if_error false a e f h = cc

module _ {C G : Type 0} (record_one : G → C → Expiry → G × Bool) where
  -- The guard, if there is one, has not seen the invocation.
  abbrev pub Fresh : Option G → Invocation C → Type 0
  Fresh none inv = Unit
  Fresh (some g) inv = (record_one g inv.envelope.cid inv.payload.expiration).1 ≡ true

  record_replay_iff :
      (guard : Option G) (inv : Invocation C) (chain : List (Delegation C)) (p : Proof C)
      → ((record_replay record_one guard inv chain).1 ≡ ok p)
        ↔ (Fresh guard inv × (proof_of inv chain ≡ p))
  record_replay_iff none inv chain p = (λ h. (tt, cc), λ (_, e). ap ok e)
  record_replay_iff (some g) inv chain p =
      elim (Bool-cases ((record_one g inv.envelope.cid inv.payload.expiration).1)) [
        | inl fresh ↦ rw fresh ((λ h. (refl, cc)), λ (_, e). ap ok e)
        | inr seen ↦ rw seen ((λ h. cc), λ (e, _). cc)
      ]

  finish_iff :
      (guard : Option G) (inv : Invocation C) (r : Result (ValidationError C) (List (Delegation C)))
      (p : Proof C)
      → ((finish record_one guard inv r).1 ≡ ok p) ↔ (
          (chain : List (Delegation C)) × (r ≡ ok chain)
          × (Fresh guard inv)
          × (proof_of inv chain ≡ p))
  finish_iff guard inv (err e) p = (λ h. cc, λ (_, b, _, _). cc)
  finish_iff guard inv (ok chain) p =
      let step = record_replay_iff guard inv chain p in
      (
        λ h. let (f, e) = step.0 h in (chain, refl, f, e),
        λ (other, b, f, e).
            let same : chain ≡ other = ok-injective b in step.1 (f, ap (proof_of inv) same ∙ e),
      )

  finish-guard :
      (guard : Option G) (inv : Invocation C) (r : Result (ValidationError C) (List (Delegation C)))
      (e : ValidationError C)
      → (finish record_one guard inv r).1 ≡ err e
      → ((finish record_one guard inv r).0 ≡ guard) ⊎ (e ≡ replay inv.envelope.cid)
  finish-guard guard inv (err e') e h = inl refl
  finish-guard none inv (ok chain) e h = inl refl
  finish-guard (some g) inv (ok chain) e h = inr (
      if_error ((record_one g inv.envelope.cid inv.payload.expiration).1) (proof_of inv chain) e
        (replay inv.envelope.cid) h)

module _ {C G : Type 0} (same_cid : C → C → Bool) (crypto : Backend)
    (record_one : G → C → Expiry → G × Bool) where
  -- `validate` accepts exactly the invocations that are authorized by a chain and that the replay
  -- guard, if there is one, has not seen; what it returns names that chain, the subject and the
  -- invocation.
  pub validate_iff :
      (v : Validator C) (guard : Option G) (inv : Invocation C) (p : Proof C)
      → ((validate same_cid crypto record_one v guard inv).1 ≡ ok p) ↔ (
          (chain : List (Delegation C)) × (Authorized same_cid crypto v inv chain)
          × (Fresh record_one guard inv)
          × (proof_of inv chain ≡ p))
  unfolding validate
  validate_iff v guard inv p =
      let end = finish_iff record_one guard inv (authorize same_cid crypto v inv) p in
      (
        λ h.
            let (chain, a, f, e) = end.0 h in
            (chain, (authorize_iff same_cid crypto v inv chain).0 a, f, e),
        λ (chain, a, f, e). end.1 (chain, (authorize_iff same_cid crypto v inv chain).1 a, f, e),
      )

  -- A validation that fails leaves the replay guard as it was, unless the failure is the replay
  -- itself: a rejected invocation is never recorded.
  pub validate-guard :
      (v : Validator C) (guard : Option G) (inv : Invocation C) (e : ValidationError C)
      → (validate same_cid crypto record_one v guard inv).1 ≡ err e
      → ((validate same_cid crypto record_one v guard inv).0 ≡ guard)
        ⊎ (e ≡ replay inv.envelope.cid)
  unfolding validate
  validate-guard v guard inv e h =
      finish-guard record_one guard inv (authorize same_cid crypto v inv) e h

not_new : (o : Option Expiry) {expiry : Expiry} → o ≡ some expiry → not (is_some o) ≡ true → ⊥
not_new none h f = cc
not_new (some x) h f = cc

module _ {C : Type 0} (same_cid : C → C → Bool) (lawful : IsEquality same_cid) where
  -- The guard holds a record of this CID.
  abbrev Has : Option (Seen same_cid) → C → Type 0
  Has none cid = ⊥
  Has (some seen) cid = (expiry : Expiry) × (find same_cid seen cid ≡ some expiry)

  insert-Has :
      (seen : Seen same_cid) (key cid : C) (expiry : Expiry)
      → Has (some seen) cid
      → Has (some (insert same_cid seen key expiry)) cid
  insert-Has seen key cid expiry (old, h) = elim (Bool-cases (same_cid key cid)) [
    | inl e ↦
        let same : key ≡ cid = (lawful key cid).0 e in
        (
          expiry,
          subst (λ k. find same_cid (insert same_cid seen key expiry) k ≡ some expiry) same
              (find-insert same_cid lawful seen key expiry),
        )
    | inr e ↦ (old, find-insert_other same_cid lawful seen key cid expiry e ∙ h)
  ]

  finish-Has :
      (guard : Option (Seen same_cid)) (inv : Invocation C) (cid : C)
      (r : Result (ValidationError C) (List (Delegation C)))
      → Has guard cid
      → Has (finish (record_cid same_cid) guard inv r).0 cid
  finish-Has guard inv cid (err e) h = h
  finish-Has none inv cid (ok chain) h = absurd h
  finish-Has (some seen) inv cid (ok chain) h =
      insert-Has seen inv.envelope.cid cid inv.payload.expiration h

  finish-records :
      (seen : Seen same_cid) (inv : Invocation C)
      (r : Result (ValidationError C) (List (Delegation C))) (p : Proof C)
      → (finish (record_cid same_cid) (some seen) inv r).1 ≡ ok p
      → Has (finish (record_cid same_cid) (some seen) inv r).0 inv.envelope.cid
  finish-records seen inv (err e) p h = cc
  finish-records seen inv (ok chain) p h = (
    inv.payload.expiration,
    find-insert same_cid lawful seen inv.envelope.cid inv.payload.expiration,
  )

  Has-stale :
      (guard : Option (Seen same_cid)) (inv : Invocation C)
      → Has guard inv.envelope.cid
      → Fresh (record_cid same_cid) guard inv
      → ⊥
  Has-stale none inv h f = h
  Has-stale (some seen) inv (expiry, h) f = not_new (find same_cid seen inv.envelope.cid) h f

  module _ (crypto : Backend) where
    -- The guard after validating a sequence of invocations, each with its own validator.
    abbrev pub run_all :
        Option (Seen same_cid) → List (Validator C × Invocation C) → Option (Seen same_cid)
    run_all guard [] = guard
    run_all guard ((v, inv) ∷ requests) =
        run_all (validate same_cid crypto (record_cid same_cid) v guard inv).0 requests

    run_all-Has :
        (guard : Option (Seen same_cid)) (requests : List (Validator C × Invocation C)) (cid : C)
        → Has guard cid
        → Has (run_all guard requests) cid
    unfolding validate
    run_all-Has guard [] cid h = h
    run_all-Has guard ((v, inv) ∷ requests) cid h =
        run_all-Has (validate same_cid crypto (record_cid same_cid) v guard inv).0 requests cid
          (finish-Has guard inv cid (authorize same_cid crypto v inv) h)

    -- With a guard held in memory, and `same_cid` the equality of CIDs, an invocation that was
    -- accepted is never accepted again, nor is another with its CID, whatever was validated in
    -- between and however the later validators are configured.
    pub validate_once :
        (v w : Validator C) (seen : Seen same_cid) (inv again : Invocation C) (p q : Proof C)
        (between : List (Validator C × Invocation C))
        → (validate same_cid crypto (record_cid same_cid) v (some seen) inv).1 ≡ ok p
        → again.envelope.cid ≡ inv.envelope.cid
        → (validate same_cid crypto
            (record_cid same_cid)
            w
            (run_all (validate same_cid crypto (record_cid same_cid) v (some seen) inv).0 between)
            again).1
          ≢ ok q
    unfolding validate
    validate_once v w seen inv again p q between h same accepted =
        let before = validate same_cid crypto (record_cid same_cid) v (some seen) inv in
        let recorded = finish-records seen inv (authorize same_cid crypto v inv) p h in
        let kept = run_all-Has before.0 between inv.envelope.cid recorded in
        let guard = run_all before.0 between in
        let (_, _, fresh, _) =
          (validate_iff same_cid crypto (record_cid same_cid) w guard again q).0 accepted in
        Has-stale guard again (subst (Has guard) (sym same) kept) fresh
