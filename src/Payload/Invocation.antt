-- ===== src/Payload/Invocation.antt =====
-- src/invocation.rs: the payload on the wire. `is_uppercase` is `char::is_uppercase`.
use pq_ucan.Base.{
  ℕ, Bool, true, false, not, List, [], ◌∷◌, ◌++◌, Option, none, some, Text, codes, Result, ok,
  ◌>>=◌, ◌>>◌, ensure,
}
use pq_ucan.Codec.Decode.{Entry}
use pq_ucan.Did.{Did, same_principal}
use pq_ucan.Error.{Error, forbidden}
use pq_ucan.Ipld.{Ipld, Items, nil, cons, Fields, end}
use pq_ucan.Payload.{
  inserted, optional_entry, new_fields, required, optional, finish, did, bytes, map, list,
  timestamp, link, expiry,
}
use pq_ucan.Payload.Delegation.{meta_entry_of, meta_or_default, command}
use pq_ucan.Payload.Written.{expiry_value}
use pq_ucan.Token.{InvocationPayload}

-- `is_some_and(|aud| aud.same_principal(&subject))`
abbrev pub names_subject : Option Did → Did → Bool
names_subject none subject = false
names_subject (some aud) subject = same_principal aud subject

module _ {C : Type 0} where
  -- `map(Ipld::Link)` over the proofs.
  abbrev pub links : List C → Items C
  links [] = nil
  links (c ∷ cs) = cons (Ipld.link c) (links cs)

  abbrev pub payload_entries : InvocationPayload C → List (Entry C)
  payload_entries p =
      (codes "iss", Ipld.string p.issuer)
      ∷ (codes "sub", Ipld.string p.subject)
      ∷ (optional_entry (codes "aud") Ipld.string p.audience
          ++ ((codes "cmd", Ipld.string p.command)
              ∷ (codes "args", Ipld.map p.args)
              ∷ (codes "prf", Ipld.list (links p.proofs))
              ∷ (meta_entry_of p.meta
                  ++ ((codes "nonce", Ipld.bytes p.nonce)
                      ∷ (codes "exp", expiry_value p.expiration)
                      ∷ (optional_entry (codes "iat") Ipld.integer p.issued_at
                          ++ optional_entry (codes "cause") Ipld.link p.cause)))))

  unfoldable pub to_ipld : InvocationPayload C → Ipld C
  to_ipld p = inserted (payload_entries p)

  -- `collect` over the proofs.
  abbrev pub collect_links : List (Ipld C) → Text → Result Error (List C)
  collect_links [] name = ok []
  collect_links (v ∷ vs) name = do c ← link v name; cs ← collect_links vs name; ok (c ∷ cs)

  unfoldable pub proofs_of : Ipld C → Text → Result Error (List C)
  proofs_of value name = do vs ← list value name; collect_links vs name

  -- `is_some_and(BTreeMap::is_empty)`
  abbrev pub is_empty_meta : Option (Fields C) → Bool
  is_empty_meta (some end) = true
  is_empty_meta _ = false

module _ {C : Type 0} (is_uppercase : ℕ → Bool) where
  unfoldable pub from_ipld : Ipld C → Result Error (InvocationPayload C)
  from_ipld payload = do
    m ← new_fields payload
    (issuer, m1) ← required did (codes "iss") m
    (subject, m2) ← required did (codes "sub") m1
    (audience, m3) ← optional did (codes "aud") m2
    ensure (not (names_subject audience subject)) (Error.payload (forbidden (codes "aud")))
    (cmd, m4) ← required (command is_uppercase) (codes "cmd") m3
    (args, m5) ← required map (codes "args") m4
    (proofs, m6) ← required proofs_of (codes "prf") m5
    (meta, m7) ← optional map (codes "meta") m6
    ensure (not (is_empty_meta meta)) (Error.payload (forbidden (codes "meta")))
    (nonce, m8) ← required bytes (codes "nonce") m7
    (expiration, m9) ← required expiry (codes "exp") m8
    (issued_at, m10) ← optional timestamp (codes "iat") m9
    (cause, m11) ← optional link (codes "cause") m10
    finish m11
    ok record {
      issuer = issuer;
      subject = subject;
      audience = audience;
      command = cmd;
      args = args;
      proofs = proofs;
      meta = meta_or_default meta;
      nonce = nonce;
      expiration = expiration;
      issued_at = issued_at;
      cause = cause;
    }
