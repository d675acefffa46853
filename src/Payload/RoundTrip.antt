-- ===== src/Payload/RoundTrip.antt =====
-- src/delegation.rs and src/invocation.rs: what `to_ipld` writes for a payload that was read.
use pq_ucan.Base.{
  after_ensure, ℕ, ◌≡◌, ◌≢◌, refl, sym, ap, subst, ◌∙◌, Bool, false, not, List, [], ◌∷◌, ◌++◌,
  append-nil, All, Option, none, some, codes, ok, >>=-eq-ok, ok-injective, arith,
}
use pq_ucan.Codec.Decode.{Entry, key_bytes, replace}
use pq_ucan.Codec.Order.{byte_order, byte_order-IsOrder}
use pq_ucan.Codec.Sorted.Taken.{Taken-All}
use pq_ucan.Error.{Error, forbidden}
use pq_ucan.Ipld.{Ipld, Fields, end, field, entries}
use pq_ucan.Payload.{
  inserted, optional_entry, new_fields, finish, did, bytes, map, timestamp, link, expiry,
}
use pq_ucan.Payload.Delegation
use pq_ucan.Payload.Delegation.{
  meta_entry_of, meta_or_default, command, subject, subject_value, policy,
}
use pq_ucan.Payload.Invocation
use pq_ucan.Payload.Invocation.{links, collect_links, proofs_of, names_subject, is_empty_meta}
use pq_ucan.Payload.Taken.{IsMap, TakenFields, after_required, after_optional}
use pq_ucan.Payload.Written.{
  expiry_value, did-Writes, bytes-Writes, map-Writes, link-Writes, timestamp-Writes, expiry-Writes,
}
use pq_ucan.Policy.Wire.{policy_to_ipld}
use pq_ucan.Token.{DelegationPayload, InvocationPayload}
use pq_ucan.Payload.Inserted.{
  command-Writes, subject-Writes, policy-Writes, proofs_of-Writes, finish-eq-ok, inserted-Taken,
  meta_kept,
}

module _ {C : Type 0} where
  -- An invocation's payload that was read, from a map with its keys in order, is written again as it
  -- was read.
  pub invocation_to_ipld-from_ipld :
      (u : ℕ → Bool) (fs : Fields C) (p : InvocationPayload C)
      → IsMap (entries fs)
      → Invocation.from_ipld u (Ipld.map fs) ≡ ok p
      → Invocation.to_ipld p ≡ Ipld.map fs
  unfolding Invocation.from_ipld Invocation.to_ipld new_fields
  invocation_to_ipld-from_ipld u fs p s h =
      after_required did Ipld.string did-Writes (codes "iss") (entries fs) _ s h (λ iss m1 t1 h1.
        after_required did Ipld.string did-Writes (codes "sub") m1 _ t1.sorted h1 (λ sub m2 t2 h2.
          after_optional did Ipld.string did-Writes (codes "aud") m2 _ t2.sorted h2
            (λ aud m3 t3 s3 h3.
              after_ensure (not (names_subject aud sub)) (Error.payload (forbidden (codes "aud"))) _
                h3
                (λ _ h4.
                  after_required (command u) Ipld.string (command-Writes u) (codes "cmd") m3 _ s3 h4
                    (λ cmd m4 t4 h5.
                      after_required map Ipld.map map-Writes (codes "args") m4 _ t4.sorted h5
                        (λ args m5 t5 h6.
                          after_required proofs_of (λ cs. Ipld.list (links cs)) proofs_of-Writes
                            (codes "prf") m5 _ t5.sorted h6
                            (λ prf m6 t6 h7.
                              after_optional map Ipld.map map-Writes (codes "meta") m6 _ t6.sorted
                                h7
                                (λ meta m7 t7 s7 h8.
                                  after_ensure (not (is_empty_meta meta))
                                    (Error.payload (forbidden (codes "meta"))) _ h8
                                    (λ full h9.
                                      after_required bytes Ipld.bytes bytes-Writes (codes "nonce")
                                        m7 _ s7 h9
                                        (λ nonce m8 t8 h10.
                                          after_required expiry expiry_value expiry-Writes
                                            (codes "exp") m8 _ t8.sorted h10
                                            (λ exp m9 t9 h11.
                                              after_optional timestamp Ipld.integer timestamp-Writes
                                                (codes "iat") m9 _ t9.sorted h11
                                                (λ iat m10 t10 s10 h12.
                                                  after_optional link Ipld.link link-Writes
                                                    (codes "cause") m10 _ s10 h12
                                                    (λ cause m11 t11 s11 h13.
                                                      let (_, done, h14) =
                                                        >>=-eq-ok (finish m11) _ h13 in
                                                      let kept : is_empty_meta meta ≡ false =
                                                        ground arith in
                                                      let last_entries =
                                                        optional_entry (codes "cause") Ipld.link
                                                          cause in
                                                      let entries' =
                                                        (codes "nonce", Ipld.bytes nonce)
                                                        ∷ (codes "exp", expiry_value exp)
                                                        ∷ (optional_entry (codes "iat") Ipld.integer
                                                            iat
                                                            ++ last_entries) in
                                                      let last : TakenFields last_entries m10 =
                                                        subst (λ l. TakenFields l m10)
                                                          (append-nil last_entries)
                                                          (t11 [] (finish-eq-ok m11 done)) in
                                                      let with_meta : TakenFields
                                                          (meta_entry_of (meta_or_default meta)
                                                            ++ entries')
                                                          m6 =
                                                        subst (λ l. TakenFields (l ++ entries') m6)
                                                          (meta_kept meta kept)
                                                          (t7 entries' (
                                                            m8,
                                                            t8,
                                                            (m9, t9, t10 last_entries last),
                                                          )) in
                                                      ap Invocation.to_ipld (sym (ok-injective h14))
                                                      ∙ inserted-Taken fs
                                                          (Invocation.payload_entries record {
                                                            issuer = iss;
                                                            subject = sub;
                                                            audience = aud;
                                                            command = cmd;
                                                            args = args;
                                                            proofs = prf;
                                                            meta = meta_or_default meta;
                                                            nonce = nonce;
                                                            expiration = exp;
                                                            issued_at = iat;
                                                            cause = cause;
                                                          })
                                                          (
                                                            m1,
                                                            t1,
                                                            (
                                                            m2,
                                                            t2,
                                                            t3 _
                                                            (m4, t4, (m5, t5, (m6, t6, with_meta))),
                                                            ),
                                                          ))))))))))))))

  abbrev pub IsNotEmptyMeta : Entry C → Type 0
  IsNotEmptyMeta e = e ≢ (codes "meta", Ipld.map end)

  not_empty_meta :
      (meta : Option (Fields C)) (es : List (Entry C))
      → All IsNotEmptyMeta (es ++ optional_entry (codes "meta") Ipld.map meta)
      → is_empty_meta meta ≡ false
  not_empty_meta none es all = refl
  not_empty_meta (some (field k v fs)) es all = refl
  not_empty_meta (some end) [] all = absurd (all.0 refl)
  not_empty_meta (some end) (e ∷ es) all = not_empty_meta (some end) es all.1

  -- A delegation's payload that was read, from a map with its keys in order and no empty `meta`, is
  -- written again as it was read.
  pub delegation_to_ipld-from_ipld :
      (u : ℕ → Bool) (fs : Fields C) (p : DelegationPayload C)
      → IsMap (entries fs)
      → All IsNotEmptyMeta (entries fs)
      → Delegation.from_ipld u (Ipld.map fs) ≡ ok p
      → Delegation.to_ipld p ≡ Ipld.map fs
  unfolding Delegation.from_ipld Delegation.to_ipld new_fields
  delegation_to_ipld-from_ipld u fs p s full h =
      after_required did Ipld.string did-Writes (codes "iss") (entries fs) _ s h (λ iss m1 t1 h1.
        after_required did Ipld.string did-Writes (codes "aud") m1 _ t1.sorted h1 (λ aud m2 t2 h2.
          after_required subject subject_value subject-Writes (codes "sub") m2 _ t2.sorted h2
            (λ sub m3 t3 h3.
              after_required (command u) Ipld.string (command-Writes u) (codes "cmd") m3 _ t3.sorted
                h3
                (λ cmd m4 t4 h4.
                  after_required policy policy_to_ipld policy-Writes (codes "pol") m4 _ t4.sorted h4
                    (λ pol m5 t5 h5.
                      after_required bytes Ipld.bytes bytes-Writes (codes "nonce") m5 _ t5.sorted h5
                        (λ nonce m6 t6 h6.
                          after_required expiry expiry_value expiry-Writes (codes "exp") m6 _
                            t6.sorted h6
                            (λ exp m7 t7 h7.
                              after_optional timestamp Ipld.integer timestamp-Writes (codes "nbf")
                                m7 _ t7.sorted h7
                                (λ nbf m8 t8 s8 h8.
                                  after_optional map Ipld.map map-Writes (codes "meta") m8 _ s8 h8
                                    (λ meta m9 t9 s9 h9.
                                      let (_, done, h10) = >>=-eq-ok (finish m9) _ h9 in
                                      let meta_entries =
                                        optional_entry (codes "meta") Ipld.map meta in
                                      let nbf_entries =
                                        optional_entry (codes "nbf") Ipld.integer nbf in
                                      let last : TakenFields meta_entries m8 =
                                        subst (λ l. TakenFields l m8) (append-nil meta_entries)
                                          (t9 [] (finish-eq-ok m9 done)) in
                                      let front = λ (later : List (Entry C)).
                                        (codes "iss", Ipld.string iss)
                                        ∷ (codes "aud", Ipld.string aud)
                                        ∷ (codes "sub", subject_value sub)
                                        ∷ (codes "cmd", Ipld.string cmd)
                                        ∷ (codes "pol", policy_to_ipld pol)
                                        ∷ (codes "nonce", Ipld.bytes nonce)
                                        ∷ (codes "exp", expiry_value exp)
                                        ∷ (nbf_entries ++ later) in
                                      let whole : TakenFields (front meta_entries) (entries fs) = (
                                        m1,
                                        t1,
                                        (
                                          m2,
                                          t2,
                                          (
                                            m3,
                                            t3,
                                            (
                                              m4,
                                              t4,
                                              (m5, t5, (m6, t6, (m7, t7, t8 meta_entries last))),
                                            ),
                                          ),
                                        ),
                                      ) in
                                      let kept =
                                        not_empty_meta meta nbf_entries
                                          (Taken-All key_bytes byte_order byte_order-IsOrder replace
                                            IsNotEmptyMeta (front meta_entries) (entries fs) whole
                                            full).1.1.1.1.1.1.1 in
                                      ap Delegation.to_ipld (sym (ok-injective h10))
                                      ∙ ap (λ l. inserted (front l)) (sym (meta_kept meta kept))
                                      ∙ inserted-Taken fs (front meta_entries) whole)))))))))
