-- ===== src/Payload/Inserted.antt =====
-- src/delegation.rs and src/invocation.rs: what `to_ipld` inserts for the values that were read.
use pq_ucan.Base.{
  ℕ, ◌≡◌, refl, sym, ap, ap₂, ◌∙◌, Bool, false, List, [], ◌∷◌, Option, none, some, Text, codes, ok,
  map_err_iff, >>=-eq-ok, ok-injective,
}
use pq_ucan.Codec.Decode.{Entry, key_bytes, replace}
use pq_ucan.Codec.Order.{byte_order, byte_order-IsOrder}
use pq_ucan.Codec.Sorted.Taken.{place_all-Taken}
use pq_ucan.Command
use pq_ucan.Command.{Command}
use pq_ucan.Command.Laws.{parse-IsCommand}
use pq_ucan.Error.{Error}
use pq_ucan.Ipld.{Ipld, cons, Fields, end, field, entries, of_entries, of_entries-entries, of_list}
use pq_ucan.Payload.{inserted, optional_entry, finish, text, did, list, link}
use pq_ucan.Payload.Delegation.{
  meta_entry_of, meta_or_default, command, subject, subject_value, policy,
}
use pq_ucan.Payload.Invocation.{links, collect_links, proofs_of, is_empty_meta}
use pq_ucan.Payload.Taken.{TakenFields, Writes}
use pq_ucan.Payload.Written.{text-Writes, did-Writes, link-Writes, list-Writes}
use pq_ucan.Policy.Wire.{policy_from_ipld, policy_to_ipld}
use pq_ucan.Policy.Wire.RoundTrip.{policy_to_ipld-policy_from_ipld}

module _ {C : Type 0} where
  pub command-Writes : (u : ℕ → Bool) → Writes {C = C} (command u) Ipld.string
  unfolding command
  command-Writes u v name c h =
      let (t, read, h1) = >>=-eq-ok (text v name) _ h in
      ap Ipld.string
        (parse-IsCommand u t c ((map_err_iff Error.command (Command.parse u t) c).0 h1)).0
      ∙ text-Writes v name t read

  pub subject-Writes : Writes {C = C} subject subject_value
  unfolding subject
  subject-Writes Ipld.null name s h = ap subject_value (sym (ok-injective h))
  subject-Writes (Ipld.string t) name s h =
      let (d, read, h1) = >>=-eq-ok (did {C = C} (Ipld.string t) name) _ h in
      ap subject_value (sym (ok-injective h1)) ∙ did-Writes (Ipld.string t) name d read
  subject-Writes _ name s h = unfold did text in cc

  pub policy-Writes : Writes {C = C} policy policy_to_ipld
  unfolding policy
  policy-Writes v name p h =
      policy_to_ipld-policy_from_ipld v p ((map_err_iff Error.policy (policy_from_ipld v) p).0 h)

  pub collect_links-links :
      (vs : List (Ipld C)) (name : Text) (cs : List C)
      → collect_links vs name ≡ ok cs
      → links cs ≡ of_list vs
  collect_links-links [] name cs h = ap links (sym (ok-injective h))
  collect_links-links (v ∷ vs) name cs h =
      let (c, first, h1) = >>=-eq-ok (link v name) _ h in
      let (ds, others, h2) = >>=-eq-ok (collect_links vs name) _ h1 in
      ap links (sym (ok-injective h2))
      ∙ ap₂ cons (link-Writes v name c first) (collect_links-links vs name ds others)

  pub proofs_of-Writes : Writes {C = C} proofs_of (λ cs. Ipld.list (links cs))
  unfolding proofs_of
  proofs_of-Writes v name cs h =
      let (vs, read, h1) = >>=-eq-ok (list v name) _ h in
      ap Ipld.list (collect_links-links vs name cs h1) ∙ list-Writes v name vs read

  pub finish-eq-ok : (m : List (Entry C)) {u : Unit {0}} → finish m ≡ ok u → m ≡ []
  unfolding finish
  finish-eq-ok [] h = refl
  finish-eq-ok ((k, v) ∷ m) h = cc

  -- A payload whose fields were all taken is what their insertion gives.
  pub inserted-Taken :
      (fs : Fields C) (es : List (Entry C))
      → TakenFields es (entries fs)
      → inserted es ≡ Ipld.map fs
  inserted-Taken fs es t =
      ap (λ l. Ipld.map (of_entries l))
        (place_all-Taken key_bytes byte_order byte_order-IsOrder replace es (entries fs) t)
      ∙ ap Ipld.map (of_entries-entries fs)

  pub meta_kept :
      (meta : Option (Fields C))
      → is_empty_meta meta ≡ false
      → optional_entry (codes "meta") Ipld.map meta ≡ meta_entry_of (meta_or_default meta)
  meta_kept none h = refl
  meta_kept (some end) h = cc
  meta_kept (some (field k v fs)) h = refl
