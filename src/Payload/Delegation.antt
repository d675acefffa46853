-- ===== src/Payload/Delegation.antt =====
-- src/delegation.rs: the payload on the wire, and the builder. `is_uppercase` is `char::is_uppercase`.
use pq_ucan.Base.{
  ℕ, Bool, List, [], ◌∷◌, ◌++◌, Option, none, some, Text, codes, Result, ok, ◌>>=◌, ◌>>◌, map_err,
}
use pq_ucan.Codec.Decode.{Entry}
use pq_ucan.Command
use pq_ucan.Command.{Command}
use pq_ucan.Error.{Error}
use pq_ucan.Ipld.{Ipld, Fields, end, field}
use pq_ucan.Policy.Syntax.{Policy}
use pq_ucan.Policy.Wire.{policy_from_ipld, policy_to_ipld}
use pq_ucan.Token.{Subject, powerline, DelegationPayload}
use pq_ucan.Payload.{
  inserted, optional_entry, new_fields, required, optional, finish, text, did, bytes, map,
  timestamp, expiry,
}
use pq_ucan.Payload.Written.{expiry_value}

module _ {C : Type 0} where
  abbrev pub subject_value : Subject → Ipld C
  subject_value (Subject.did d) = Ipld.string d
  subject_value powerline = Ipld.null

  -- `if !meta.is_empty()` around the insertion.
  abbrev pub meta_entry_of : Fields C → List (Entry C)
  meta_entry_of end = []
  meta_entry_of (field k v fs) = (codes "meta", Ipld.map (field k v fs)) ∷ []

  abbrev pub payload_entries : DelegationPayload C → List (Entry C)
  payload_entries p =
      (codes "iss", Ipld.string p.issuer)
      ∷ (codes "aud", Ipld.string p.audience)
      ∷ (codes "sub", subject_value p.subject)
      ∷ (codes "cmd", Ipld.string p.command)
      ∷ (codes "pol", policy_to_ipld p.policy)
      ∷ (codes "nonce", Ipld.bytes p.nonce)
      ∷ (codes "exp", expiry_value p.expiration)
      ∷ (optional_entry (codes "nbf") Ipld.integer p.not_before ++ meta_entry_of p.meta)

  unfoldable pub to_ipld : DelegationPayload C → Ipld C
  to_ipld p = inserted (payload_entries p)

  -- The arms on `sub`.
  unfoldable pub subject : Ipld C → Text → Result Error Subject
  unfolding did
  subject Ipld.null name = ok powerline
  subject value name = do d ← did value name; ok (Subject.did d)

  unfoldable pub policy : Ipld C → Text → Result Error (Policy C)
  policy value name = map_err Error.policy (policy_from_ipld value)

  -- `unwrap_or_default`.
  abbrev pub meta_or_default : Option (Fields C) → Fields C
  meta_or_default none = end
  meta_or_default (some m) = m

module _ {C : Type 0} (is_uppercase : ℕ → Bool) where
  unfoldable pub command : Ipld C → Text → Result Error Command
  unfolding text
  command value name = do t ← text value name; map_err Error.command (Command.parse is_uppercase t)

  unfoldable pub from_ipld : Ipld C → Result Error (DelegationPayload C)
  from_ipld payload = do
    m ← new_fields payload
    (issuer, m1) ← required did (codes "iss") m
    (audience, m2) ← required did (codes "aud") m1
    (about, m3) ← required subject (codes "sub") m2
    (cmd, m4) ← required command (codes "cmd") m3
    (pol, m5) ← required policy (codes "pol") m4
    (nonce, m6) ← required bytes (codes "nonce") m5
    (expiration, m7) ← required expiry (codes "exp") m6
    (not_before, m8) ← optional timestamp (codes "nbf") m7
    (meta, m9) ← optional map (codes "meta") m8
    finish m9
    ok record {
      issuer = issuer;
      audience = audience;
      subject = about;
      command = cmd;
      policy = pol;
      nonce = nonce;
      meta = meta_or_default meta;
      not_before = not_before;
      expiration = expiration;
    }
