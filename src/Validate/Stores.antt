-- ===== src/Validate/Stores.antt =====
-- src/validate.rs: `MemoryStore`, `MemoryReplayGuard` and `MemoryRevocationStore`. `same_cid` is the
-- equality of CIDs.
pub mod Laws
use pq_ucan.Base.{
  ℕ, Bool, true, false, not, ◌||◌, if◌then◌else◌, any, List, [], ◌∷◌, ◌++◌, Option, none, some,
  length,
}
use pq_ucan.Did.{Did, same_principal}
use pq_ucan.Time.{Timestamp, Expiry, is_past}
use pq_ucan.Token.{Delegation}
use pq_ucan.Validate.Map.{find, insert, remove, retain}

abbrev pub is_some : {A : Type 0} → Option A → Bool
is_some none = false
is_some (some x) = true

-- `MemoryStore`.
module _ {C : Type 0} (same_cid : C → C → Bool) where
  abbrev pub Store : Type 0
  Store = List (C × Delegation C)

  abbrev pub get : Store → C → Option (Delegation C)
  get store cid = find same_cid store cid

  -- The store and the CID under which it holds the delegation.
  abbrev pub hold : Store → Delegation C → Store × C
  hold store d = (insert same_cid store d.envelope.cid d, d.envelope.cid)

  abbrev pub forget : Store → C → Store × Option (Delegation C)
  forget store cid = (remove same_cid store cid, find same_cid store cid)

  unfoldable pub prune_expired : Store → Timestamp → ℕ → Store
  unfolding is_past
  prune_expired store now skew = retain (λ d. not (is_past d.payload.expiration now skew)) store

-- `MemoryReplayGuard`: the expiry of each invocation seen.
module _ {C : Type 0} (same_cid : C → C → Bool) where
  abbrev pub Seen : Type 0
  Seen = List (C × Expiry)

  -- `false` if it had been recorded before.
  abbrev pub record_cid : Seen → C → Expiry → Seen × Bool
  record_cid seen cid expiry =
      (insert same_cid seen cid expiry, not (is_some (find same_cid seen cid)))

  unfoldable pub prune_seen : Seen → Timestamp → ℕ → Seen
  unfolding is_past
  prune_seen seen now skew = retain (λ expiry. not (is_past expiry now skew)) seen

-- `Recorded`: what is known of one delegation.
pub record Recorded : Type 0 where
  pub everywhere : Bool
  pub by : List Did
  pub target_expiry : Option Expiry

-- `entry(cid).or_default()`.
abbrev pub or_default : Option Recorded → Recorded
or_default none = record { everywhere = false; by = []; target_expiry = none }
or_default (some r) = r

abbrev pub add_authority : List Did → Did → List Did
add_authority by authority =
    if any (λ did. same_principal did authority) by then by else by ++ (authority ∷ [])

abbrev pub recorded_by : Recorded → Did → Expiry → Recorded
recorded_by r authority expiry = record {
  everywhere = r.everywhere;
  by = add_authority r.by authority;
  target_expiry = some expiry;
}

abbrev pub everywhere_of : Recorded → Recorded
everywhere_of r = record { everywhere = true; by = r.by; target_expiry = r.target_expiry }

abbrev pub expiry_is_past : Option Expiry → Timestamp → ℕ → Bool
expiry_is_past none now skew = false
expiry_is_past (some expiry) now skew = is_past expiry now skew

abbrev pub reaches : List Did → Recorded → Bool
reaches issuers r =
    r.everywhere || any (λ did. any (λ issuer. same_principal issuer did) issuers) r.by

abbrev pub reaches_any : List Did → Option Recorded → Bool
reaches_any issuers none = false
reaches_any issuers (some r) = reaches issuers r

-- `MemoryRevocationStore`.
module _ {C : Type 0} (same_cid : C → C → Bool) where
  abbrev pub Revoked : Type 0
  Revoked = List (C × Recorded)

  -- `record`, from the accepted revocation's target, authority and expiry.
  abbrev pub record_revocation : Revoked → C → Did → Expiry → Revoked
  record_revocation revoked target authority expiry =
      insert same_cid revoked target
        (recorded_by (or_default (find same_cid revoked target)) authority expiry)

  abbrev pub revoke : Revoked → C → Revoked
  revoke revoked cid =
      insert same_cid revoked cid (everywhere_of (or_default (find same_cid revoked cid)))

  unfoldable pub prune_revoked : Revoked → Timestamp → ℕ → Revoked
  unfolding is_past
  prune_revoked revoked now skew =
      retain (λ r. r.everywhere || not (expiry_is_past r.target_expiry now skew)) revoked

  unfoldable pub is_revoked : Revoked → C → List Did → Bool
  unfolding same_principal
  is_revoked revoked cid issuers = reaches_any issuers (find same_cid revoked cid)
