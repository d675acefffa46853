-- ===== src/Policy/Selector/Resolve.antt =====
-- src/policy/selector.rs: what the resolution of a selector comes to.
use pq_ucan.Base.{
  ◌≡◌, ◌↔◌, ◌⊎◌, inl, inr, refl, ap, sym, subst, ◌∙◌, Bool, true, false, if◌then◌else◌, List, [],
  ◌∷◌, ◌++◌, Option, none, some, Option-cases, Bool-cases,
}
use pq_ucan.Ipld.{Ipld, null}
use pq_ucan.Policy.Selector.{Segment, step, resolve_from}

module _ {C : Type 0} where
  -- The segments lead from a value to another, each from what the one before it gave.
  pub data Leads : Ipld C → List Segment → Ipld C → Type 0 where
    done : (v : Ipld C) → Leads v [] v
    next :
        {v w u : Ipld C} (segment : Segment) {segments : List Segment}
        → step v segment.kind ≡ some w
        → Leads w segments u
        → Leads v (segment ∷ segments) u

  -- The first segment that fails is marked as `optional` says, and the others do not matter.
  pub data Breaks (root : Ipld C) (segments : List Segment) (optional : Bool) : Type 0 where
    at :
        (front back : List Segment) (segment : Segment) (v : Ipld C)
        → segments ≡ front ++ segment ∷ back
        → Leads root front v
        → step v segment.kind ≡ none
        → segment.optional ≡ optional
        → Breaks root segments optional

  Breaks-next :
      (v w : Ipld C) (segment : Segment) (segments : List Segment) (optional : Bool)
      → step v segment.kind ≡ some w
      → Breaks w segments optional
      → Breaks v (segment ∷ segments) optional
  Breaks-next v w segment segments optional found (at front back last u cut leads fails marked) =
      Breaks.at (segment ∷ front) back last u (ap (λ l. segment ∷ l) cut)
        (Leads.next segment found leads) fails marked

  -- What resolution can come to.
  abbrev Outcome : Ipld C → List Segment → Option (Ipld C) → Type 0
  Outcome root segments none = Breaks root segments false
  Outcome root segments (some v) = Leads root segments v ⊎ ((v ≡ null) × Breaks root segments true)

  Outcome-next :
      (v w : Ipld C) (segment : Segment) (segments : List Segment) (o : Option (Ipld C))
      → step v segment.kind ≡ some w
      → Outcome w segments o
      → Outcome v (segment ∷ segments) o
  Outcome-next v w segment segments none found h = Breaks-next v w segment segments false found h
  Outcome-next v w segment segments (some u) found (inl leads) =
      inl (Leads.next segment found leads)
  Outcome-next v w segment segments (some u) found (inr (is_null, breaks)) =
      inr (is_null, Breaks-next v w segment segments true found breaks)

  -- What a failing segment gives.
  abbrev null_if : Bool → Option (Ipld C)
  null_if optional = if optional then some null else none

  resolve_from-found :
      (v w : Ipld C) (segment : Segment) (segments : List Segment)
      → step v segment.kind ≡ some w
      → resolve_from v (segment ∷ segments) ≡ resolve_from w segments
  unfolding resolve_from
  resolve_from-found v w segment segments found = rw (found, resolve_from) refl

  resolve_from-failed :
      (v : Ipld C) (segment : Segment) (segments : List Segment)
      → step v segment.kind ≡ none
      → resolve_from v (segment ∷ segments) ≡ null_if segment.optional
  unfolding resolve_from
  resolve_from-failed v segment segments failed = rw (failed, resolve_from) refl

  resolve_from-Outcome :
      (root : Ipld C) (segments : List Segment) → Outcome root segments (resolve_from root segments)
  unfolding resolve_from
  resolve_from-Outcome root [] = inl (Leads.done root)
  resolve_from-Outcome root (segment ∷ segments) = elim (Option-cases (step root segment.kind)) [
    | inl failed ↦
        let stops : (b : Bool) → segment.optional ≡ b → Breaks root (segment ∷ segments) b =
          λ b marked. Breaks.at [] segments segment root refl (Leads.done root) failed marked in
        let value = resolve_from-failed root segment segments failed in
        elim (Bool-cases segment.optional) [
          | inl o ↦
              subst (Outcome root (segment ∷ segments)) (sym (value ∙ ap null_if o))
                (inr (refl, stops true o))
          | inr o ↦
              subst (Outcome root (segment ∷ segments)) (sym (value ∙ ap null_if o)) (stops false o)
        ]
    | inr (value, found) ↦ rw (resolve_from-found root value segment segments found) (
        Outcome-next root value segment segments (resolve_from value segments) found
          (resolve_from-Outcome value segments))
  ]

  Leads-resolve_from :
      {root v : Ipld C} {segments : List Segment}
      → Leads root segments v
      → resolve_from root segments ≡ some v
  unfolding resolve_from
  Leads-resolve_from (Leads.done v) = refl
  Leads-resolve_from (Leads.next {v} {w} segment {segments} found leads) =
      resolve_from-found v w segment segments found ∙ Leads-resolve_from leads

  past-Leads :
      {root v : Ipld C} {front : List Segment} (back : List Segment)
      → Leads root front v
      → resolve_from root (front ++ back) ≡ resolve_from v back
  unfolding resolve_from
  past-Leads back (Leads.done v) = refl
  past-Leads back (Leads.next {v} {w} segment {segments} found leads) =
      resolve_from-found v w segment (segments ++ back) found ∙ past-Leads back leads

  Breaks-resolve_from :
      (root : Ipld C) (segments : List Segment) (optional : Bool)
      → Breaks root segments optional
      → resolve_from root segments ≡ null_if optional
  unfolding resolve_from
  Breaks-resolve_from root segments optional (at front back segment v cut leads fails marked) =
      ap (resolve_from root) cut
      ∙ past-Leads (segment ∷ back) leads
      ∙ resolve_from-failed v segment back fails
      ∙ ap null_if marked

  -- Resolution goes from left to right. It gives a value exactly where all segments lead to it, each
  -- from what the one before it gave, or where it is `null` and the first segment that fails is
  -- optional; and it fails exactly where the first segment that fails is not optional. What follows
  -- the first segment that fails does not matter.
  pub resolve_from_iff :
      (root : Ipld C) (segments : List Segment)
      → ((v : Ipld C)
          → (resolve_from root segments ≡ some v)
            ↔ (Leads root segments v ⊎ ((v ≡ null) × Breaks root segments true)))
        × ((resolve_from root segments ≡ none) ↔ Breaks root segments false)
  resolve_from_iff root segments = (
    λ v. (
      λ h. subst (Outcome root segments) h (resolve_from-Outcome root segments),
      λ h. elim h [
        | inl leads ↦ Leads-resolve_from leads
        | inr (is_null, breaks) ↦
            Breaks-resolve_from root segments true breaks ∙ ap some (sym is_null)
      ],
    ),
    (
      λ h. subst (Outcome root segments) h (resolve_from-Outcome root segments),
      λ breaks. Breaks-resolve_from root segments false breaks,
    ),
  )
