-- ===== src/Command/Split.antt =====
-- src/command.rs: splitting a path at its slashes and joining it again.
use pq_ucan.Base.{
  ◌⊎◌, inl, inr, ℕ, ◌≡◌, ◌≢◌, refl, ap, ap₂, Bool, true, false, ◌==◌, List, [], ◌∷◌, ◌++◌, some,
  All, Text, strip_prefix?, strip_prefix?-append, arith, append_assoc,
}
use pq_ucan.Command.{slash, split, drop_empty, ends_with_slash, contains_double_slash}

-- Each segment behind a slash.
abbrev pub render : List Text → Text
render [] = []
render (s ∷ ss) = slash ∷ (s ++ render ss)

abbrev pub SlashFree : Text → Type 0
SlashFree = All (λ c. c ≢ slash)

-- A segment that a parsed command can have.
abbrev pub IsSegment : Text → Type 0
IsSegment s = (s ≢ []) × SlashFree s

pub render-split : (t : Text) → render ((split t).0 ∷ (split t).1) ≡ slash ∷ t
unfolding split
render-split [] = refl
render-split (c ∷ t) = ground (arith, render-split t)

pub split-SlashFree : (t : Text) → SlashFree (split t).0 × All SlashFree (split t).1
unfolding split
split-SlashFree [] = (tt, tt)
split-SlashFree (c ∷ t) = ground (arith, split-SlashFree t)

-- Behind a character `c`, a text with no doubled and no last slash splits into pieces that are not
-- empty, but for the first where `c` is no slash.
pub split-nonempty :
    (c : ℕ) (t : Text)
    → contains_double_slash (c ∷ t) ≡ false
    → ends_with_slash (c ∷ t) ≡ false
    → (c ≡ slash → (split t).0 ≢ []) × All (λ s. s ≢ []) (split t).1
unfolding split
split-nonempty c [] hd hl = (λ e. ground arith, tt)
split-nonempty c (x ∷ t) hd hl = ground (arith, split-nonempty x t (ground arith) hl)

abbrev pub boundary : Text → Bool
boundary [] = true
boundary (c ∷ t) = c == slash

-- Two slash-free pieces in front of a boundary are cut at the same place.
boundary_unique :
    (a b r s : Text)
    → SlashFree a
    → SlashFree b
    → boundary r ≡ true
    → boundary s ≡ true
    → a ++ r ≡ b ++ s
    → (a ≡ b) × (r ≡ s)
boundary_unique [] [] r s ha hb hr hs e = (refl, e)
boundary_unique [] (y ∷ b) r s ha hb hr hs e = ground arith
boundary_unique (x ∷ a) [] r s ha hb hr hs e = ground arith
boundary_unique (x ∷ a) (y ∷ b) r s ha hb hr hs e =
    ground (arith, boundary_unique a b r s ha.1 hb.1 hr hs)

pub boundary-render : (ss : List Text) → boundary (render ss) ≡ true
boundary-render [] = refl
boundary-render (s ∷ ss) = refl

render-append : (ps qs : List Text) → render (ps ++ qs) ≡ render ps ++ render qs
render-append [] qs = refl
render-append (p ∷ ps) qs = rw (render-append ps qs, append_assoc)

boundary-append : (ps : List Text) (r : Text) → boundary r ≡ true → boundary (render ps ++ r) ≡ true
boundary-append [] r h = h
boundary-append (p ∷ ps) r h = refl

-- A rendered list that is a prefix up to a boundary is a prefix of the segments.
pub render_prefix :
    (ps qs : List Text) (r : Text)
    → All IsSegment ps
    → All IsSegment qs
    → boundary r ≡ true
    → render qs ≡ render ps ++ r
    → (cs : List Text) × (qs ≡ ps ++ cs)
render_prefix [] qs r ha hb hr e = (qs, refl)
render_prefix (p ∷ ps) [] r ha hb hr e = cc
render_prefix (p ∷ ps) (q ∷ qs) r ha hb hr e =
    let (cs, f) = render_prefix ps qs r ha.1 hb.1 hr cut.1 in (cs, ap₂ ◌∷◌ cut.0 f)
  where
    cut : (q ≡ p) × (render qs ≡ render ps ++ r)
    cut =
        boundary_unique q p (render qs) (render ps ++ r) hb.0.1 ha.0.1 (boundary-render qs)
          (boundary-append ps r hr) (ground (arith, append_assoc p (render ps) r))

pub strip-render :
    (ps cs : List Text) → strip_prefix? (render ps) (render (ps ++ cs)) ≡ some (render cs)
strip-render ps cs = rw (render-append ps cs) (strip_prefix?-append (render ps) (render cs))

-- Dropping the empty pieces of a rendered list gives the list back.
split-append :
    (a t : Text)
    → SlashFree a
    → boundary t ≡ true
    → ((split (a ++ t)).0 ≡ a) × ((split (a ++ t)).1 ≡ (split t).1)
unfolding split
split-append [] [] ha ht = (refl, refl)
split-append [] (c ∷ t) ha ht = ground arith
split-append (x ∷ a) t ha ht = ground (arith, split-append a t ha.1 ht)

pub split-render : (ss : List Text) → All IsSegment ss → (split (render ss)).1 ≡ ss
unfolding split
split-render [] h = refl
split-render (s ∷ ss) h =
    ground (arith, split-append s (render ss) h.0.1 (boundary-render ss), split-render ss h.1)

pub drop_empty-id : (ss : List Text) → All (λ s. s ≢ []) ss → drop_empty ss ≡ ss
drop_empty-id [] h = refl
drop_empty-id ([] ∷ ss) h = absurd (h.0 refl)
drop_empty-id ((c ∷ s) ∷ ss) h = ap (λ t. (c ∷ s) ∷ t) (drop_empty-id ss h.1)

no_double-append :
    (c : ℕ) (a r : Text)
    → SlashFree a
    → (c ≢ slash) ⊎ (a ≢ [])
    → boundary r ≡ true
    → contains_double_slash r ≡ false
    → contains_double_slash (c ∷ (a ++ r)) ≡ false
no_double-append c [] [] ha h hb hr = refl
no_double-append c [] (y ∷ r) ha h hb hr = ground arith
no_double-append c (x ∷ a) r ha h hb hr =
    ground (arith, no_double-append x a r ha.1 (inl ha.0) hb hr)

no_trailing-append :
    (c : ℕ) (a r : Text)
    → SlashFree a
    → (c ≢ slash) ⊎ (a ≢ [])
    → ends_with_slash r ≡ false
    → ends_with_slash (c ∷ (a ++ r)) ≡ false
no_trailing-append c [] [] ha h hr = ground arith
no_trailing-append c [] (y ∷ r) ha h hr = hr
no_trailing-append c (x ∷ a) r ha h hr = no_trailing-append x a r ha.1 (inl ha.0) hr

-- What segments render to passes the guards of `parse` on doubled and last slashes.
pub render_clean :
    (ss : List Text)
    → All IsSegment ss
    → (contains_double_slash (render ss) ≡ false) × (ends_with_slash (render ss) ≡ false)
render_clean [] h = (refl, refl)
render_clean (s ∷ ss) h =
    let rest = render_clean ss h.1 in
    (
      no_double-append slash s (render ss) h.0.1 (inr h.0.0) (boundary-render ss) rest.0,
      no_trailing-append slash s (render ss) h.0.1 (inr h.0.0) rest.1,
    )
