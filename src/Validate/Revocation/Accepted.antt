-- ===== src/Validate/Revocation/Accepted.antt =====
-- src/validate/revocation.rs: what an accepted revocation shows.
use pq_ucan.Base.{
  ℕ, suc, ◌≡◌, refl, sym, subst, ◌⊎◌, inl, inr, Bool, true, false, not, text_eq, some-injective,
  List, [], ◌∷◌, Option, none, some, last?, position_from, length, ok, >>=-eq-ok, ok_or,
  ok_or-eq-ok, ok-injective, map_err, map_err_iff, ensure, ensure-eq-ok, arith, Bool-cases,
  text_eq→eq, ap, map,
}
use pq_ucan.Crypto.{Backend}
use pq_ucan.Did.{Did, same_principal}
use pq_ucan.Ipld.{Ipld}
use pq_ucan.Token.{Delegation, Invocation, verify_invocation}
use pq_ucan.Validate.Authorized.{Signed, verify_chain_iff}
use pq_ucan.Validate.Chain.{check_structure}
use pq_ucan.Validate.Errors.{Hop, empty_chain, signature_error}
use pq_ucan.Validate.Pipeline.{
  Validator, check_count, check_own_time, check_own_signature, issuers_of, verify_chain,
}
use pq_ucan.Validate.Revocation.Arguments.{HasArgument, read_arguments-target}
use pq_ucan.Validate.Revocation.{
  revoke_command, revoke_name, same_cids, not_a_revocation, missing_target, read_arguments,
  path_mismatch, Revocation, AcceptedRevocation, Right, invalid, wrong_target, subject_not_in_chain,
  read_revocation, check_path, check_names_chain, check_no_issuer_repeats, check_grant,
  check_tokens, check_standing, right_of, issued_at, expiry_of_last, no_proofs, accepted,
  check_revocation,
}
use pq_ucan.Validate.Stores.Laws.{issued_by}
use pq_ucan.Validate.Structure.{Structured, check_structure_iff}

issued_at-issued_by :
    {C : Type 0} (chain : List (Delegation C)) (did : Did) (k i : ℕ)
    → position_from k (λ d. same_principal d.payload.issuer did) chain ≡ some i
    → issued_by did (issuers_of chain) ≡ true
issued_at-issued_by [] did k i h = cc
issued_at-issued_by (d ∷ chain) did k i h =
    elim (Bool-cases (same_principal d.payload.issuer did)) [
      | inl e ↦ rw e refl
      | inr e ↦ let rest = issued_at-issued_by chain did (suc k) i in ground (arith, rest, e)
    ]

module _ {C : Type 0} (same_cid : C → C → Bool) (crypto : Backend) where
  -- What the invocation says that it revokes: it is for the command of revocations, it holds the
  -- CID of the last delegation of the chain as its argument `revoke`, and a path that it gives is
  -- that of the chain.
  pub record Names (inv : Invocation C) (chain : List (Delegation C)) (target : C) : Type 0 where
    pub command : inv.payload.command ≡ revoke_command
    pub named : C
    pub held : HasArgument revoke_name (Ipld.link named) inv.payload.args
    pub last : (d : Delegation C) × (last? chain ≡ some d) × (target ≡ d.envelope.cid)
    pub same : same_cid named target ≡ true
    pub reading : Revocation C
    pub is_read : read_revocation inv ≡ ok reading
    pub along :
        (path : List C)
        → reading.path ≡ some path
        → same_cids same_cid path (map (λ d. d.envelope.cid) chain) ≡ true

  read_revocation-eq-ok :
      (inv : Invocation C) (r : Revocation C)
      → read_revocation inv ≡ ok r
      → (inv.payload.command ≡ revoke_command)
        × HasArgument revoke_name (Ipld.link r.target) inv.payload.args
  unfolding read_revocation
  read_revocation-eq-ok inv r h =
      let (_, commanded, h1) =
        >>=-eq-ok
          (ensure (text_eq inv.payload.command revoke_command)
            (not_a_revocation inv.payload.command))
          _ h in
      let (found, read, h2) = >>=-eq-ok (read_arguments inv.payload.args (none, none)) _ h1 in
      let (cid, given, h3) = >>=-eq-ok (ok_or (found.0) missing_target) _ h2 in
      let same : cid ≡ r.target = ap (λ (x : Revocation C). x.target) (ok-injective h3) in
      (
        text_eq→eq inv.payload.command revoke_command (
            ensure-eq-ok (text_eq inv.payload.command revoke_command)
              (not_a_revocation inv.payload.command) commanded),
        subst (λ c. HasArgument revoke_name (Ipld.link c) inv.payload.args) same
            (read_arguments-target inv.payload.args found cid read
              (ok_or-eq-ok (found.0) missing_target given)),
      )

  along-check_path :
      (given : Option (List C)) (chain : List (Delegation C)) (path : List C)
      → check_path same_cid given chain ≡ ok tt
      → given ≡ some path
      → same_cids same_cid path (map (λ d. d.envelope.cid) chain) ≡ true
  along-check_path none chain path h e = cc
  along-check_path (some given) chain path h e =
      subst (λ p. same_cids same_cid p (map (λ d. d.envelope.cid) chain) ≡ true) (some-injective e)
        (ensure-eq-ok (same_cids same_cid given (map (λ d. d.envelope.cid) chain)) path_mismatch h)

  check_names_chain-Names :
      (inv : Invocation C) (r : Revocation C) (chain : List (Delegation C)) (cid : C)
      → read_revocation inv ≡ ok r
      → check_names_chain same_cid r chain ≡ ok cid
      → Names inv chain cid
  unfolding check_names_chain
  check_names_chain-Names inv r chain cid read h =
      let (d, last, h1) = >>=-eq-ok (ok_or (last? chain) (invalid empty_chain)) _ h in
      let (_, hit, h2) =
        >>=-eq-ok (ensure (same_cid r.target d.envelope.cid) (wrong_target r.target)) _ h1 in
      let (_, path, h3) = >>=-eq-ok (check_path same_cid r.path chain) _ h2 in
      let own = read_revocation-eq-ok inv r read in
      let found : d.envelope.cid ≡ cid = ok-injective h3 in
      record {
        command = own.0;
        named = r.target;
        held = own.1;
        last = (d, ok_or-eq-ok (last? chain) (invalid empty_chain) last, sym found);
        same =
            subst (λ c. same_cid r.target c ≡ true) found
              (ensure-eq-ok (same_cid r.target d.envelope.cid) (wrong_target r.target) hit);
        reading = r;
        is_read = read;
        along = λ p e. along-check_path r.path chain p path e;
      }

  -- What the checks on the tokens show.
  pub record Sound (v : Validator C) (subject : Did) (inv : Invocation C)
      (chain : List (Delegation C)) (target : C) : Type 0 where
    pub structured : Structured chain subject none
    pub signed : Signed crypto v chain
    pub own_signature : verify_invocation crypto v.resolver inv ≡ ok tt
    pub own_time : check_own_time v inv ≡ ok tt
    pub names : Names inv chain target

  tokens-Sound :
      (v : Validator C) (subject : Did) (inv : Invocation C) (chain : List (Delegation C))
      (target : C)
      → check_tokens same_cid crypto v subject inv chain ≡ ok target
      → Sound v subject inv chain target
  unfolding check_tokens
  tokens-Sound v subject inv chain target h =
      let (r, read, h1) = >>=-eq-ok (read_revocation inv) _ h in
      let (_, _, h2) = >>=-eq-ok (map_err invalid (check_count v.max_proofs (length chain))) _ h1 in
      let (_, shape, h3) = >>=-eq-ok (map_err invalid (check_structure chain subject none)) _ h2 in
      let (cid, named, h4) = >>=-eq-ok (check_names_chain same_cid r chain) _ h3 in
      let (_, _, h5) = >>=-eq-ok (check_no_issuer_repeats chain) _ h4 in
      let (_, own, h6) = >>=-eq-ok (map_err invalid (check_own_signature crypto v inv)) _ h5 in
      let (_, timely, h7) = >>=-eq-ok (map_err invalid (check_own_time v inv)) _ h6 in
      let (_, all, h8) = >>=-eq-ok (map_err invalid (verify_chain crypto v chain)) _ h7 in
      record {
        structured =
            (check_structure_iff chain subject none).0
              ((map_err_iff invalid (check_structure chain subject none) tt).0 shape);
        signed =
            (verify_chain_iff crypto v chain).0
              ((map_err_iff invalid (verify_chain crypto v chain) tt).0 all);
        own_signature =
            (map_err_iff (signature_error Hop.invocation) (verify_invocation crypto v.resolver inv)
                tt).0
              ((map_err_iff invalid (check_own_signature crypto v inv) tt).0 own);
        own_time = (map_err_iff invalid (check_own_time v inv) tt).0 timely;
        names =
            subst (Names inv chain) (ok-injective h8)
              (check_names_chain-Names inv r chain cid read named);
      }

  -- Whose right is used: the revoker's own, where it issued in the chain, or else that of the
  -- revocation's subject, by a grant that validates.
  abbrev pub Entitled : Validator C → Invocation C → Did → Bool → Type 0
  Entitled v inv authority delegated =
      ((authority ≡ inv.payload.issuer) × (delegated ≡ false))
      ⊎ ((authority ≡ inv.payload.subject)
          × (delegated ≡ true)
          × (check_grant same_cid crypto v inv ≡ ok tt))

  right-Entitled :
      (v : Validator C) (inv : Invocation C) (chain : List (Delegation C)) (source : ℕ)
      (o : Option ℕ) (right : Right)
      → issued_at chain inv.payload.subject ≡ some source
      → issued_at chain inv.payload.issuer ≡ o
      → right_of same_cid crypto v inv source o ≡ ok right
      → (issued_by right.1 (issuers_of chain) ≡ true) × Entitled v inv right.1 right.2
  right-Entitled v inv chain source (some hop) right hs ho h =
      let same = ok-injective h in
      (
        subst (λ r. issued_by r.1 (issuers_of chain) ≡ true) same
            (issued_at-issued_by chain inv.payload.issuer 0 hop ho),
        subst (λ r. Entitled v inv r.1 r.2) same (inl (refl, refl)),
      )
  right-Entitled v inv chain source none right hs ho h =
      let (_, _, h1) = >>=-eq-ok (ensure (not (no_proofs inv.payload.proofs)) _) _ h in
      let (_, grant, h2) = >>=-eq-ok (check_grant same_cid crypto v inv) _ h1 in
      let same = ok-injective h2 in
      (
        subst (λ r. issued_by r.1 (issuers_of chain) ≡ true) same
            (issued_at-issued_by chain inv.payload.subject 0 source hs),
        subst (λ r. Entitled v inv r.1 r.2) same (inr (refl, refl, grant)),
      )

  -- An accepted revocation is an invocation of `/ucan/revoke`, signed and in time, whose argument
  -- `revoke` names the target, and it comes with a well-formed chain from the subject, signed
  -- throughout, that ends in the target and is the path, where the invocation gives one; the
  -- authority issued in it, and is the revoker or the subject of a
  -- revocation whose grant of the right validates; and the expiry recorded is that of the last
  -- delegation.
  pub check_revocation-Sound :
      (v : Validator C) (subject : Did) (inv : Invocation C) (chain : List (Delegation C))
      (a : AcceptedRevocation C)
      → check_revocation same_cid crypto v subject inv chain ≡ ok a
      → (Sound v subject inv chain a.target)
        × (issued_by a.authority (issuers_of chain) ≡ true)
        × (Entitled v inv a.authority a.delegated)
        × (a.target_expiry ≡ expiry_of_last chain)
  unfolding check_revocation
  check_revocation-Sound v subject inv chain a h =
      let (target, tokens, h1) = >>=-eq-ok (check_tokens same_cid crypto v subject inv chain) _ h in
      let (source, first, h2) =
        >>=-eq-ok
          (ok_or (issued_at chain inv.payload.subject) (subject_not_in_chain inv.payload.subject)) _
          h1 in
      let own = issued_at chain inv.payload.issuer in
      let (right, entitled, h3) = >>=-eq-ok (right_of same_cid crypto v inv source own) _ h2 in
      let (_, _, h4) = >>=-eq-ok (check_standing v chain right.0) _ h3 in
      let same : accepted same_cid crypto target (expiry_of_last chain) inv right ≡ a =
        ok-injective h4 in
      let sound = tokens-Sound v subject inv chain target tokens in
      let source_at =
        ok_or-eq-ok (issued_at chain inv.payload.subject) (subject_not_in_chain inv.payload.subject)
          first in
      let (by, from) = right-Entitled v inv chain source own right source_at refl entitled in
      subst
        (λ b.
          (Sound v subject inv chain b.target)
          × (issued_by b.authority (issuers_of chain) ≡ true)
          × (Entitled v inv b.authority b.delegated)
          × (b.target_expiry ≡ expiry_of_last chain))
        same (sound, by, from, refl)
