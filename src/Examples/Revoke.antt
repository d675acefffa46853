-- ===== src/Examples/Revoke.antt =====
-- Tests of src/validate/revocation.rs: Alice revokes what she gave Bob.
use pq_ucan.Base.{
  ℕ, ◌≡◌, ◌≢◌, ◌⊎◌, refl, [], ◌∷◌, none, some, pos, true, false, ◌||◌, if◌then◌else◌, codes, ok,
}
use pq_ucan.Examples.{same_number, same_number-IsEquality}
use pq_ucan.Examples.Chain.{alice, bob, toy, invoke, to_send, send, validator}
use pq_ucan.Ipld.{Ipld, end, field}
use pq_ucan.Time.{at, never}
use pq_ucan.Token.{Invocation}
use pq_ucan.Validate.Map.{find}
use pq_ucan.Validate.Pipeline.{Validator, authorize, issuers_of}
use pq_ucan.Validate.Revocation.{AcceptedRevocation, check_revocation, expiry_of_last}
use pq_ucan.Validate.Revocation.Accepted.{Sound, Entitled, check_revocation-Sound}
use pq_ucan.Validate.Revocation.Recorded.{revocation-ends_chain}
use pq_ucan.Validate.Stores.{
  Recorded, Revoked, record_revocation, prune_revoked, expiry_is_past, revoke, is_revoked,
}
use pq_ucan.Validate.Stores.Laws.{issued_by, is_revoked-record, is_revoked-revoke, prune-is_revoked}

abbrev revocation : Invocation ℕ
revocation =
    invoke 4 alice alice (codes "/ucan/revoke") (field (codes "revoke") (Ipld.link 2) end) []

abbrev accepted : AcceptedRevocation ℕ
accepted = record {
  target = 2;
  revoker = alice;
  authority = alice;
  target_expiry = at (pos 200);
  delegated = false;
}

revocation_is_accepted :
    check_revocation same_number toy validator alice revocation to_send ≡ ok accepted
unfolding check_revocation
revocation_is_accepted = refl

abbrev none_revoked : Revoked same_number
none_revoked = []

-- A validator that asks the store after the revocation was recorded.
abbrev informed : Validator ℕ
informed = record {
  store = validator.store;
  resolver = validator.resolver;
  now = validator.now;
  skew = validator.skew;
  executor = none;
  max_proofs = none;
  revocations =
      some (
        is_revoked same_number (record_revocation same_number none_revoked 2 alice (at (pos 200))));
}

check_revocation-Sound_example :
    (Sound same_number toy validator alice revocation to_send 2)
    × (issued_by alice (issuers_of to_send) ≡ true)
    × (Entitled same_number toy validator revocation alice false)
    × (at (pos 200) ≡ expiry_of_last to_send)
check_revocation-Sound_example =
    check_revocation-Sound same_number toy validator alice revocation to_send accepted
      revocation_is_accepted

revocation-ends_chain_example : authorize same_number toy informed send ≢ ok to_send
revocation-ends_chain_example =
    revocation-ends_chain same_number same_number-IsEquality toy validator informed alice revocation
      send to_send accepted none_revoked revocation_is_accepted refl

is_revoked-record_example :
    is_revoked same_number
      (record_revocation same_number none_revoked 2 alice never)
      2
      (bob ∷ alice ∷ [])
    ≡ (is_revoked same_number none_revoked 2 (bob ∷ alice ∷ [])
        || (if same_number 2 2 then issued_by alice (bob ∷ alice ∷ []) else false))
is_revoked-record_example =
    is_revoked-record same_number same_number-IsEquality none_revoked 2 alice never 2
      (bob ∷ alice ∷ [])

is_revoked-revoke_example :
    is_revoked same_number (revoke same_number none_revoked 5) 5 (bob ∷ [])
    ≡ (same_number 5 5 || is_revoked same_number none_revoked 5 (bob ∷ []))
is_revoked-revoke_example =
    is_revoked-revoke same_number same_number-IsEquality none_revoked 5 5 (bob ∷ [])

abbrev one_revoked : Revoked same_number
one_revoked = record_revocation same_number none_revoked 2 alice (at (pos 200))

alice_revoked : is_revoked same_number one_revoked 2 (alice ∷ []) ≡ true
unfolding is_revoked
alice_revoked = refl

prune-is_revoked_example :
    (is_revoked same_number (prune_revoked same_number one_revoked (pos 500) 60) 2 (alice ∷ [])
      ≡ true)
    ⊎ ((r : Recorded) × (find same_number one_revoked 2 ≡ some r)
        × (r.everywhere ≡ false)
        × (expiry_is_past r.target_expiry (pos 500) 60 ≡ true))
prune-is_revoked_example =
    prune-is_revoked same_number same_number-IsEquality one_revoked (pos 500) 60 2 (alice ∷ [])
      (refl, tt) alice_revoked
