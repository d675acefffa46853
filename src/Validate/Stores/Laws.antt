-- ===== src/Validate/Stores/Laws.antt =====
-- src/validate.rs: which delegations `MemoryRevocationStore` holds revoked.
use pq_ucan.Base.{
  ℕ, ◌≡◌, refl, ap, subst, ◌∙◌, ◌⊎◌, inl, inr, Bool, true, false, not, ◌||◌, if◌then◌else◌, any,
  List, [], ◌∷◌, ◌++◌, Option, none, some, arith, Bool-cases,
}
use pq_ucan.Did.{Did, same_principal}
use pq_ucan.Did.Laws.{same_principal_sym, same_principal_trans}
use pq_ucan.Time.{Timestamp, Expiry}
use pq_ucan.Validate.Map.{
  find, insert, IsEquality, find-insert, find-insert_other, Unique, find-retain, kept,
}
use pq_ucan.Validate.Stores.{
  Recorded, Revoked, or_default, add_authority, recorded_by, record_revocation, everywhere_of,
  revoke, expiry_is_past, prune_revoked, reaches, reaches_any, is_revoked,
}

-- A principal who issued in the chain.
abbrev pub issued_by : Did → List Did → Bool
issued_by did issuers = any (λ issuer. same_principal issuer did) issuers

issued_by_same :
    (d e : Did) (issuers : List Did)
    → same_principal d e ≡ true
    → issued_by d issuers ≡ issued_by e issuers
issued_by_same d e [] h = refl
issued_by_same d e (i ∷ is) h =
    let rest = issued_by_same d e is h in
    let to = same_principal_trans i d e in
    let back = same_principal_trans i e d in
    let h' = same_principal_sym d e h in ground (arith, rest, to, back, h')

any-append :
    {A : Type 0} (p : A → Bool) (xs : List A) (y : A) → any p (xs ++ (y ∷ [])) ≡ (any p xs || p y)
any-append p [] y = ground arith
any-append p (x ∷ xs) y = rw (any-append p xs y) (ground arith)

issued_by_member :
    (authority : Did) (issuers by : List Did)
    → any (λ d. same_principal d authority) by ≡ true
    → issued_by authority issuers ≡ true
    → any (λ d. issued_by d issuers) by ≡ true
issued_by_member authority issuers [] h g = cc
issued_by_member authority issuers (d ∷ by) h g =
    let rest = issued_by_member authority issuers by in
    let same = issued_by_same d authority issuers in ground (arith, rest, same)

issued_by_add :
    (authority : Did) (issuers by : List Did)
    → any (λ d. issued_by d issuers) (add_authority by authority)
      ≡ (any (λ d. issued_by d issuers) by || issued_by authority issuers)
issued_by_add authority issuers by = elim (Bool-cases (any (λ d. same_principal d authority) by)) [
  | inl e ↦
      let member = issued_by_member authority issuers by e in
      rw (e, add_authority) (ground (arith, member))
  | inr e ↦ rw (e, add_authority) (any-append (λ d. issued_by d issuers) by authority)
]

reaches_recorded :
    (issuers : List Did) (o : Option Recorded) (authority : Did) (expiry : Expiry)
    → reaches issuers (recorded_by (or_default o) authority expiry)
      ≡ (reaches_any issuers o || issued_by authority issuers)
reaches_recorded issuers none authority expiry = ground arith
reaches_recorded issuers (some r) authority expiry =
    let added = issued_by_add authority issuers r.by in rw added (ground arith)

everywhere_reaches :
    (issuers : List Did) (o : Option Recorded)
    → reaches issuers (everywhere_of (or_default o)) ≡ true
everywhere_reaches issuers none = refl
everywhere_reaches issuers (some r) = refl

abbrev is_kept : Timestamp → ℕ → Recorded → Bool
is_kept now skew r = r.everywhere || not (expiry_is_past r.target_expiry now skew)

kept_reaches :
    (issuers : List Did) (now : Timestamp) (skew : ℕ) (o : Option Recorded)
    → reaches_any issuers o ≡ true
    → (reaches_any issuers (kept (is_kept now skew) o) ≡ true)
      ⊎ ((r : Recorded) × (o ≡ some r)
          × (r.everywhere ≡ false)
          × (expiry_is_past r.target_expiry now skew ≡ true))
kept_reaches issuers now skew none h = cc
kept_reaches issuers now skew (some r) h = elim (Bool-cases (is_kept now skew r)) [
  | inl good ↦ inl (ap (λ b. reaches_any issuers (if b then some r else none)) good ∙ h)
  | inr bad ↦ inr (r, refl, ground arith, ground arith)
]

module _ {C : Type 0} (same_cid : C → C → Bool) (lawful : IsEquality same_cid) where
  record_target :
      (revoked : Revoked same_cid) (target : C) (authority : Did) (expiry : Expiry)
      (issuers : List Did)
      → is_revoked same_cid
          (record_revocation same_cid revoked target authority expiry)
          target
          issuers
        ≡ (is_revoked same_cid revoked target issuers || issued_by authority issuers)
  unfolding is_revoked
  record_target revoked target authority expiry issuers =
      let before = find same_cid revoked target in
      let same =
        find-insert same_cid lawful revoked target
          (recorded_by (or_default before) authority expiry) in
      ap (reaches_any issuers) same ∙ reaches_recorded issuers before authority expiry

  -- After recording a revocation, a delegation is revoked for a chain exactly when it was before, or
  -- when it is the target and the revocation's authority issued in the chain. `same_cid` is the
  -- equality of CIDs.
  pub is_revoked-record :
      (revoked : Revoked same_cid) (target : C) (authority : Did) (expiry : Expiry) (cid : C)
      (issuers : List Did)
      → is_revoked same_cid (record_revocation same_cid revoked target authority expiry) cid issuers
        ≡ (is_revoked same_cid revoked cid issuers
            || (if same_cid target cid then issued_by authority issuers else false))
  unfolding is_revoked
  is_revoked-record revoked target authority expiry cid issuers =
      elim (Bool-cases (same_cid target cid)) [
        | inl e ↦
            let same : target ≡ cid = (lawful target cid).0 e in
            rw e (
              subst
                (λ c.
                  is_revoked same_cid (record_revocation same_cid revoked target authority expiry) c
                    issuers
                  ≡ (is_revoked same_cid revoked c issuers || issued_by authority issuers))
                same (record_target revoked target authority expiry issuers))
        | inr e ↦
            let other =
              find-insert_other same_cid lawful revoked target cid
                (recorded_by (or_default (find same_cid revoked target)) authority expiry) e in
            rw (e, other) (ground arith)
      ]

  -- After `revoke`, a delegation is revoked for a chain exactly when it was before, or when it is the
  -- one named, whoever issued in the chain. `same_cid` is the equality of CIDs.
  pub is_revoked-revoke :
      (revoked : Revoked same_cid) (target cid : C) (issuers : List Did)
      → is_revoked same_cid (revoke same_cid revoked target) cid issuers
        ≡ (same_cid target cid || is_revoked same_cid revoked cid issuers)
  unfolding is_revoked
  is_revoked-revoke revoked target cid issuers =
      let entry = everywhere_of (or_default (find same_cid revoked target)) in
      elim (Bool-cases (same_cid target cid)) [
        | inl e ↦
            let same : target ≡ cid = (lawful target cid).0 e in
            let found =
              subst (λ c. find same_cid (insert same_cid revoked target entry) c ≡ some entry) same
                (find-insert same_cid lawful revoked target entry) in
            rw e (
              ap (reaches_any issuers) found
              ∙ everywhere_reaches issuers (find same_cid revoked target))
        | inr e ↦ rw e (
            ap (reaches_any issuers) (find-insert_other same_cid lawful revoked target cid entry e))
      ]

  -- What pruning forgets has expired: a delegation that was revoked and is not any more was recorded
  -- with an expiry that is past, and was not revoked in every chain. The store holds no CID twice, and
  -- `same_cid` is the equality of CIDs.
  pub prune-is_revoked :
      (revoked : Revoked same_cid) (now : Timestamp) (skew : ℕ) (cid : C) (issuers : List Did)
      → Unique same_cid lawful revoked
      → is_revoked same_cid revoked cid issuers ≡ true
      → (is_revoked same_cid (prune_revoked same_cid revoked now skew) cid issuers ≡ true)
        ⊎ ((r : Recorded) × (find same_cid revoked cid ≡ some r)
            × (r.everywhere ≡ false)
            × (expiry_is_past r.target_expiry now skew ≡ true))
  unfolding is_revoked prune_revoked
  prune-is_revoked revoked now skew cid issuers u h =
      let after = find-retain same_cid lawful (is_kept now skew) revoked cid u in
      elim (kept_reaches issuers now skew (find same_cid revoked cid) h) [
        | inl stays ↦ inl (ap (reaches_any issuers) after ∙ stays)
        | inr gone ↦ inr gone
      ]
