-- ===== src/Validate/Revocation.antt =====
-- src/validate/revocation.rs: reading and judging `/ucan/revoke` invocations.
pub mod Accepted
pub mod Arguments
pub mod Recorded
use pq_ucan.Base.{
  ℕ, leb, Bool, true, false, not, ◌&&◌, if◌then◌else◌, List, [], ◌∷◌, Option, none, some, length,
  take, any, position_from, last?, map, Text, codes, text_eq, Result, ok, err, ◌>>=◌, ◌>>◌, ensure,
  ok_or, map_err,
}
use pq_ucan.Command.{Command}
use pq_ucan.Crypto.{Backend}
use pq_ucan.Did.{Did, same_principal}
use pq_ucan.Ipld.{Ipld, Items, Fields, nil, cons, end, field}
use pq_ucan.Time.{Expiry, never}
use pq_ucan.Token.{Delegation, Invocation, invocation_time, verify_invocation}
use pq_ucan.Validate.Chain.{check_structure}
use pq_ucan.Validate.Errors.{Hop, proof, ValidationError, too_many_proofs, empty_chain, time_error}
use pq_ucan.Validate.Loops.{for_each}
use pq_ucan.Validate.Pipeline.{
  Validator, Proof, check_count, check_hop_time, check_own_time, check_own_signature,
  check_revocations, verify_chain, validate,
}

abbrev pub revoke_command : Command
revoke_command = codes "/ucan/revoke"

pub data RevocationError (C : Type 0) : Type 0 where
  not_a_revocation : Command → RevocationError C
  missing_target : RevocationError C
  malformed_argument : Text → RevocationError C
  unknown_argument : Text → RevocationError C
  wrong_target : C → RevocationError C
  path_mismatch : RevocationError C
  repeated_issuer : Hop → Did → RevocationError C
  subject_not_in_chain : Did → RevocationError C
  not_authorized : Did → RevocationError C
  invalid : ValidationError C → RevocationError C
  grant : ValidationError C → RevocationError C

-- `Revocation`: the arguments of a revocation.
pub record Revocation (C : Type 0) : Type 0 where
  pub target : C
  pub path : Option (List C)

pub record AcceptedRevocation (C : Type 0) : Type 0 where
  pub target : C
  pub revoker : Did
  pub authority : Did
  pub target_expiry : Expiry
  pub delegated : Bool

abbrev pub revoke_name : Text
revoke_name = codes "revoke"

abbrev pub path_name : Text
path_name = codes "path"

-- What the loop over the arguments has read so far.
abbrev pub Read : Type 0 → Type 0
Read C = Option C × Option (List C)

-- The hop whose right is used, whose it is, and whether it was delegated.
abbrev pub Right : Type 0
Right = ℕ × Did × Bool

module _ {C : Type 0} where
  abbrev pub links_in : Items C → Result (RevocationError C) (List C)
  links_in nil = ok []
  links_in (cons (Ipld.link cid) vs) = do cids ← links_in vs; ok (cid ∷ cids)
  links_in (cons _ vs) = err (malformed_argument path_name)

  abbrev pub read_target : Ipld C → Result (RevocationError C) C
  read_target (Ipld.link cid) = ok cid
  read_target _ = err (malformed_argument revoke_name)

  abbrev pub read_path : Ipld C → Result (RevocationError C) (List C)
  read_path (Ipld.list links) = links_in links
  read_path _ = err (malformed_argument path_name)

  -- The body of the loop.
  abbrev pub read_argument : Text → Ipld C → Read C → Result (RevocationError C) (Read C)
  read_argument name value (target, path) =
      if text_eq name revoke_name
      then (do cid ← read_target value; ok (some cid, path))
      else if text_eq name path_name
      then (do cids ← read_path value; ok (target, some cids))
      else err (unknown_argument name)

  abbrev pub read_arguments : Fields C → Read C → Result (RevocationError C) (Read C)
  read_arguments end found = ok found
  read_arguments (field name value fs) found = do
    next ← read_argument name value found
    read_arguments fs next

  -- `Revocation::read`.
  unfoldable pub read_revocation : Invocation C → Result (RevocationError C) (Revocation C)
  read_revocation inv = do
    ensure (text_eq inv.payload.command revoke_command) (not_a_revocation inv.payload.command)
    (target, path) ← read_arguments inv.payload.args (none, none)
    cid ← ok_or target missing_target
    ok record { target = cid; path = path }

  -- A principal issues twice.
  abbrev pub check_issuer :
      List (Delegation C) → ℕ → Delegation C → Result (RevocationError C) (Unit {0})
  check_issuer chain i d =
      ensure (not (any (λ e. same_principal e.payload.issuer d.payload.issuer) (take i chain)))
        (repeated_issuer (proof i) d.payload.issuer)

  unfoldable pub check_no_issuer_repeats :
      List (Delegation C) → Result (RevocationError C) (Unit {0})
  check_no_issuer_repeats chain = for_each 0 (check_issuer chain) chain

  -- Where in the chain a principal first issues.
  abbrev pub issued_at : List (Delegation C) → Did → Option ℕ
  issued_at chain did = position_from 0 (λ d. same_principal d.payload.issuer did) chain

  abbrev pub expiry_of_last : List (Delegation C) → Expiry
  expiry_of_last chain = elim (last? chain) [ none ↦ never | some d ↦ d.payload.expiration ]

  abbrev pub no_proofs : List C → Bool
  no_proofs [] = true
  no_proofs (cid ∷ cids) = false

  abbrev pub check_standing :
      Validator C → List (Delegation C) → ℕ → Result (RevocationError C) (Unit {0})
  check_standing v chain hop = do
    map_err invalid (for_each 0 (check_hop_time v) (take hop chain))
    map_err invalid (check_revocations v (take hop chain) chain)

module _ {C : Type 0} (same_cid : C → C → Bool) where
  abbrev pub same_cids : List C → List C → Bool
  same_cids [] [] = true
  same_cids (x ∷ xs) (y ∷ ys) = same_cid x y && same_cids xs ys
  same_cids xs ys = false

  abbrev pub check_path :
      Option (List C) → List (Delegation C) → Result (RevocationError C) (Unit {0})
  check_path none chain = ok tt
  check_path (some path) chain =
      ensure (same_cids path (map (λ d. d.envelope.cid) chain)) path_mismatch

  -- The target's own CID, once the arguments are shown to name this chain.
  unfoldable pub check_names_chain :
      Revocation C → List (Delegation C) → Result (RevocationError C) C
  check_names_chain r chain = do
    found ← ok_or (last? chain) (invalid empty_chain)
    ensure (same_cid r.target found.envelope.cid) (wrong_target r.target)
    check_path r.path chain
    ok found.envelope.cid

module _ {C : Type 0} (same_cid : C → C → Bool) (crypto : Backend) where
  -- A `/ucan/revoke` proof is an ordinary invocation chain: no executor and no replay guard.
  abbrev pub grant_validator : Validator C → Validator C
  grant_validator v = record {
    store = v.store;
    resolver = v.resolver;
    now = v.now;
    skew = v.skew;
    executor = none;
    max_proofs = v.max_proofs;
    revocations = v.revocations;
  }

  abbrev no_guard : Unit {0} → C → Expiry → Unit {0} × Bool
  no_guard guard cid expiry = (guard, true)

  abbrev pub forget_proof : Proof C → Unit {0}
  forget_proof p = tt

  unfoldable pub check_grant : Validator C → Invocation C → Result (RevocationError C) (Unit {0})
  unfolding validate
  check_grant v inv = do
    p ← map_err grant ((validate same_cid crypto no_guard (grant_validator v) none inv).1)
    ok (forget_proof p)

  -- The `match` on where the revoker issued.
  abbrev pub right_of : Validator C → Invocation C → ℕ → Option ℕ → Result (RevocationError C) Right
  right_of v inv source (some hop) = ok (hop, inv.payload.issuer, false)
  right_of v inv source none = do
    ensure (not (no_proofs inv.payload.proofs)) (not_authorized inv.payload.issuer)
    check_grant v inv
    ok (source, inv.payload.subject, true)

  -- The checks up to and including the signatures: what the revocation targets.
  unfoldable pub check_tokens :
      Validator C → Did → Invocation C → List (Delegation C) → Result (RevocationError C) C
  unfolding read_revocation check_structure check_names_chain check_no_issuer_repeats
      verify_invocation invocation_time verify_chain
  check_tokens v subject inv chain = do
    revocation ← read_revocation inv
    map_err invalid (check_count v.max_proofs (length chain))
    map_err invalid (check_structure chain subject none)
    target ← check_names_chain same_cid revocation chain
    check_no_issuer_repeats chain
    map_err invalid (check_own_signature crypto v inv)
    map_err invalid (check_own_time v inv)
    map_err invalid (verify_chain crypto v chain)
    ok target

  abbrev pub accepted : C → Expiry → Invocation C → Right → AcceptedRevocation C
  accepted found expiry inv (hop, whose, from_grant) = record {
    target = found;
    revoker = inv.payload.issuer;
    authority = whose;
    target_expiry = expiry;
    delegated = from_grant;
  }

  unfoldable pub check_revocation :
      Validator C
      → Did
      → Invocation C
      → List (Delegation C)
      → Result (RevocationError C) (AcceptedRevocation C)
  unfolding check_tokens check_grant same_principal check_revocations
  check_revocation v subject inv chain = do
    target ← check_tokens v subject inv chain
    source ← ok_or (issued_at chain inv.payload.subject) (subject_not_in_chain inv.payload.subject)
    right ← right_of v inv source (issued_at chain inv.payload.issuer)
    check_standing v chain right.0
    ok (accepted target (expiry_of_last chain) inv right)
