-- ===== src/Validate/Revocation/Arguments.antt =====
-- src/validate/revocation.rs: what the arguments of a revocation hold, once they have been read.
use pq_ucan.Base.{
  ◌≡◌, sym, ap, subst, ◌∙◌, ◌⊎◌, inl, inr, none, some, Bool-cases, Text, text_eq, text_eq→eq, ok,
  >>=-eq-ok, ok-injective, arith,
}
use pq_ucan.Ipld.{Ipld, Fields, end, field}
use pq_ucan.Validate.Revocation.{
  Read, revoke_name, path_name, read_target, read_path, read_argument, read_arguments,
}

-- A map holds a value under a name.
pub data HasArgument {C : Type 0} (name : Text) (value : Ipld C) : Fields C → Type 0 where
  here : (fs : Fields C) → HasArgument name value (field name value fs)
  later :
      (k : Text) (v : Ipld C) (fs : Fields C)
      → HasArgument name value fs
      → HasArgument name value (field k v fs)

module _ {C : Type 0} where
  read_target-eq-ok : (v : Ipld C) (c : C) → read_target v ≡ ok c → v ≡ Ipld.link c
  read_target-eq-ok (Ipld.link d) c h = ap Ipld.link (ok-injective h)
  read_target-eq-ok _ c h = cc

  -- The target after a round is the link of the argument `revoke`, or was there before.
  read_argument-target :
      (name : Text) (v : Ipld C) (found next : Read C) (c : C)
      → read_argument name v found ≡ ok next
      → next.0 ≡ some c
      → (found.0 ≡ some c) ⊎ ((name ≡ revoke_name) × (v ≡ Ipld.link c))
  read_argument-target name v found next c h e = elim (Bool-cases (text_eq name revoke_name)) [
    | inl revoke ↦
        let (cid, target, h1) = >>=-eq-ok (read_target v) _ (rw revoke at h) in
        let same : cid ≡ c = ground (arith, h1, e) in
        inr (text_eq→eq name revoke_name revoke, read_target-eq-ok v cid target ∙ ap Ipld.link same)
    | inr other ↦ elim (Bool-cases (text_eq name path_name)) [
      | inl path ↦
          let (cids, _, h1) = >>=-eq-ok (read_path v) _ (rw (other, path) at h) in
          inl (ap (λ (r : Read C). r.0) (ok-injective h1) ∙ e)
      | inr unknown ↦ cc (rw (other, unknown) at h)
    ]
  ]

  read_arguments-from :
      (fs : Fields C) (found r : Read C) (c : C)
      → read_arguments fs found ≡ ok r
      → r.0 ≡ some c
      → (found.0 ≡ some c) ⊎ HasArgument revoke_name (Ipld.link c) fs
  read_arguments-from end found r c h e = inl (ap (λ (x : Read C). x.0) (ok-injective h) ∙ e)
  read_arguments-from (field name v fs) found r c h e =
      let (next, step, rest) = >>=-eq-ok (read_argument name v found) _ h in
      elim (read_arguments-from fs next r c rest e) [
        | inr below ↦ inr (HasArgument.later name v fs below)
        | inl before ↦ elim (read_argument-target name v found next c step before) [
          | inl earlier ↦ inl earlier
          | inr (named, link) ↦ inr (
              subst (λ k. HasArgument revoke_name (Ipld.link c) (field k v fs)) (sym named)
                (subst (λ w. HasArgument revoke_name (Ipld.link c) (field revoke_name w fs))
                  (sym link) (HasArgument.here fs)))
        ]
      ]

  -- The target that was read is the link of the argument `revoke`.
  pub read_arguments-target :
      (fs : Fields C) (r : Read C) (c : C)
      → read_arguments fs (none, none) ≡ ok r
      → r.0 ≡ some c
      → HasArgument revoke_name (Ipld.link c) fs
  read_arguments-target fs r c h e = elim (read_arguments-from fs (none, none) r c h e) [
    | inl nothing ↦ cc
    | inr held ↦ held
  ]
