-- ===== src/Command/Laws.antt =====
-- src/command.rs: what a parsed command is made of, and coverage as a prefix of segments.
use pq_ucan.Base.{
  ℕ, ◌≡◌, ◌≢◌, ◌↔◌, refl, ap, ap₂, sym, ◌∙◌, Bool, true, false, List, [], ◌∷◌, ◌++◌, some, none,
  All, any, Text, strip_prefix?, strip_prefix?-some, arith, append_assoc, append-nil, str_len,
  utf8_width_pos, ok, ==_iff, subst, ltb, inl, inr, Bool-cases, Option-cases,
}
use pq_ucan.Command.{
  slash, Command, parse, root, is_root, split, segments, covers, starts_with_slash, ends_with_slash,
  contains_double_slash,
}
use pq_ucan.Command.Split.{
  render, IsSegment, SlashFree, boundary, boundary-render, render_prefix, strip-render,
  split-render, render-split, split-SlashFree, split-nonempty, drop_empty-id, render_clean,
}

-- The text of a list of segments: `/` for none.
abbrev pub show : List Text → Command
show [] = root
show (s ∷ ss) = render (s ∷ ss)

-- What holds of every value of `Command`: it is written from its own segments.
pub record IsCommand (c : Command) : Type 0 where
  pub pieces : All IsSegment (segments c)
  pub written : c ≡ show (segments c)

-- The guards of `parse` that an accepted text has passed.
record Accepted (u : ℕ → Bool) (t c : Text) : Type 0 where
  same : c ≡ t
  leading : starts_with_slash t ≡ true
  no_trailing : ltb 1 (str_len t) ≡ true → ends_with_slash t ≡ false
  no_double : ltb 1 (str_len t) ≡ true → contains_double_slash t ≡ false
  lowercase : any u t ≡ false

parse-Accepted : (u : ℕ → Bool) (t c : Text) → parse u t ≡ ok c → Accepted u t c
unfolding parse
parse-Accepted u t c h = ground arith

IsSegment-All : (ss : List Text) → All SlashFree ss → All (λ s. s ≢ []) ss → All IsSegment ss
IsSegment-All [] f n = tt
IsSegment-All (s ∷ ss) f n = ((n.0, f.0), IsSegment-All ss f.1 n.1)

All-nonempty : (ss : List Text) → All IsSegment ss → All (λ s. s ≢ []) ss
All-nonempty [] h = tt
All-nonempty (s ∷ ss) h = (h.0.0, All-nonempty ss h.1)

segments-root : segments root ≡ []
unfolding segments
segments-root = refl

-- A path of more than the slash, with no doubled and no last slash, is the rendering of its pieces.
segments-slash :
    (x : ℕ) (t : Text)
    → contains_double_slash (slash ∷ x ∷ t) ≡ false
    → ends_with_slash (slash ∷ x ∷ t) ≡ false
    → IsCommand (slash ∷ x ∷ t)
unfolding segments
segments-slash x t hd hl =
    let pieces = split-nonempty slash (x ∷ t) hd hl in
    let free = split-SlashFree (x ∷ t) in
    let whole : List Text = (split (x ∷ t)).0 ∷ (split (x ∷ t)).1 in
    let full : All (λ s. s ≢ []) whole = (pieces.0 refl, pieces.1) in
    record {
      pieces = rw (drop_empty-id whole full) (IsSegment-All whole free full);
      written = rw (drop_empty-id whole full) (sym (render-split (x ∷ t)));
    }

long_enough : (x : ℕ) (t : Text) → ltb 1 (str_len (slash ∷ x ∷ t)) ≡ true
long_enough x t = ground (arith, utf8_width_pos x)

Accepted-IsCommand : (u : ℕ → Bool) (t c : Text) → Accepted u t c → IsCommand t
Accepted-IsCommand u [] c a = cc (a.leading)
Accepted-IsCommand u (x ∷ []) c a =
    rw ((==_iff x slash).0 a.leading)
      record { pieces = rw segments-root tt; written = rw segments-root refl }
Accepted-IsCommand u (x ∷ y ∷ t) c a =
    let lead : x ≡ slash = (==_iff x slash).0 a.leading in
    let guard : Accepted u (slash ∷ y ∷ t) c = subst (λ z. Accepted u (z ∷ y ∷ t) c) lead a in
    subst (λ z. IsCommand (z ∷ y ∷ t)) (sym lead)
      (segments-slash y t (guard.no_double (long_enough y t)) (guard.no_trailing (long_enough y t)))

-- A text that `parse` accepts is returned unchanged, has no uppercase character, and is written from
-- its own segments, each of which is not empty and has no slash: `/` alone for no segment, otherwise
-- each segment behind a slash.
pub parse-IsCommand :
    (u : ℕ → Bool) (t c : Text) → parse u t ≡ ok c → (c ≡ t) × (any u c ≡ false) × IsCommand c
parse-IsCommand u t c h =
    let a = parse-Accepted u t c h in rw (a.same) (refl, a.lowercase, Accepted-IsCommand u t c a)

segments-show : (ss : List Text) → All IsSegment ss → segments (show ss) ≡ ss
unfolding segments
segments-show [] h = refl
segments-show (s ∷ ss) h =
    rw (split-render (s ∷ ss) h) (drop_empty-id (s ∷ ss) (All-nonempty (s ∷ ss) h))

-- Every list of segments, none of them empty or with a slash, and without uppercase characters when
-- written, is the list of segments of the text written from it, which `parse` accepts.
pub parse-show :
    (u : ℕ → Bool) (ss : List Text)
    → All IsSegment ss
    → any u (show ss) ≡ false
    → (parse u (show ss) ≡ ok (show ss)) × (segments (show ss) ≡ ss)
unfolding parse
parse-show u [] h hu = (ground arith, segments-root)
parse-show u (s ∷ ss) h hu = (ground (arith, render_clean (s ∷ ss) h), segments-show (s ∷ ss) h)

is_root-show : (ss : List Text) → All IsSegment ss → is_root (show ss) ≡ true → ss ≡ []
unfolding is_root
is_root-show [] h e = refl
is_root-show ([] ∷ ss) h e = absurd (h.0.0 refl)
is_root-show ((c ∷ s) ∷ ss) h e = ground arith

-- The test on what is left behind the prefix is the boundary test.
covers-show :
    (p : Text) (ps : List Text) (other rest : Text)
    → All IsSegment (p ∷ ps)
    → strip_prefix? (show (p ∷ ps)) other ≡ some rest
    → covers (show (p ∷ ps)) other ≡ boundary rest
unfolding covers
covers-show p ps other [] h e = elim (Bool-cases (is_root (show (p ∷ ps)))) [
  | inl r ↦ cc (is_root-show (p ∷ ps) h r)
  | inr n ↦ rw (n, e)
]
covers-show p ps other (c ∷ rest) h e = elim (Bool-cases (is_root (show (p ∷ ps)))) [
  | inl r ↦ cc (is_root-show (p ∷ ps) h r)
  | inr n ↦ rw (n, e)
]

covers-none :
    (p : Text) (ps : List Text) (other : Text)
    → All IsSegment (p ∷ ps)
    → strip_prefix? (show (p ∷ ps)) other ≡ none
    → covers (show (p ∷ ps)) other ≡ false
unfolding covers
covers-none p ps other h e = elim (Bool-cases (is_root (show (p ∷ ps)))) [
  | inl r ↦ cc (is_root-show (p ∷ ps) h r)
  | inr n ↦ rw (n, e)
]

root_too_short :
    (p : Text) (ps : List Text) (rest : Text)
    → All IsSegment (p ∷ ps)
    → ¬ (show [] ≡ show (p ∷ ps) ++ rest)
root_too_short [] ps rest h e = h.0.0 refl
root_too_short (x ∷ p) ps rest h e = cc

prefix_at_boundary :
    (p : Text) (ps qs : List Text) (rest : Text)
    → All IsSegment (p ∷ ps)
    → All IsSegment qs
    → boundary rest ≡ true
    → show qs ≡ show (p ∷ ps) ++ rest
    → (cs : List Text) × (qs ≡ p ∷ ps ++ cs)
prefix_at_boundary p ps [] rest hp hq b e = absurd (root_too_short p ps rest hp e)
prefix_at_boundary p ps (q ∷ qs) rest hp hq b e = render_prefix (p ∷ ps) (q ∷ qs) rest hp hq b e

covers_show→ :
    (ps qs : List Text)
    → All IsSegment ps
    → All IsSegment qs
    → covers (show ps) (show qs) ≡ true
    → (cs : List Text) × (qs ≡ ps ++ cs)
covers_show→ [] qs hp hq e = (qs, refl)
covers_show→ (p ∷ ps) qs hp hq e = elim (Option-cases (strip_prefix? (show (p ∷ ps)) (show qs))) [
  | inl n ↦ cc (covers-none p ps (show qs) hp n)
  | inr (rest, found) ↦
      prefix_at_boundary p ps qs rest hp hq (sym (covers-show p ps (show qs) rest hp found) ∙ e)
        (strip_prefix?-some (show (p ∷ ps)) (show qs) rest found)
]

covers_show← : (ps cs : List Text) → All IsSegment ps → covers (show ps) (show (ps ++ cs)) ≡ true
unfolding covers
covers_show← [] cs hp = refl
covers_show← (p ∷ ps) cs hp =
    covers-show p ps (show (p ∷ ps ++ cs)) (render cs) hp (strip-render (p ∷ ps) cs)
    ∙ boundary-render cs

-- Between commands that `parse` can return, coverage is the prefix order of their segments: `c`
-- covers `d` exactly when the segments of `d` are those of `c` followed by more, or by none.
pub covers_iff :
    (c d : Command)
    → IsCommand c
    → IsCommand d
    → (covers c d ≡ true) ↔ ((more : List Text) × (segments d ≡ segments c ++ more))
covers_iff c d hc hd = (
  λ e.
      covers_show→ (segments c) (segments d) hc.pieces hd.pieces
        (rw (← hc.written, ← hd.written) e),
  λ (more, e). covers_of_prefix more e,
)
  where
    covers_of_prefix : (more : List Text) → segments d ≡ segments c ++ more → covers c d ≡ true
    covers_of_prefix more e =
        ap₂ covers hc.written (hd.written ∙ ap show e) ∙ covers_show← (segments c) more hc.pieces

pub covers_refl : (c : Command) → IsCommand c → covers c c ≡ true
covers_refl c h = (covers_iff c c h h).1 ([], sym (append-nil (segments c)))

-- Between commands that `parse` can return coverage composes: what `d` covers is covered by whatever
-- covers `d`.
pub covers_trans :
    (c d e : Command)
    → IsCommand c
    → IsCommand d
    → IsCommand e
    → covers c d ≡ true
    → covers d e ≡ true
    → covers c e ≡ true
covers_trans c d e hc hd he cd de =
    let (m, p) = (covers_iff c d hc hd).0 cd in
    let (n, q) = (covers_iff d e hd he).0 de in
    (covers_iff c e hc he).1 (m ++ n, q ∙ ap (λ s. s ++ n) p ∙ append_assoc (segments c) m n)
