-- ===== src/Policy/Glob/Compile.antt =====
-- src/policy/glob.rs: `parse` merges neighbouring stars, and this changes no match.
use pq_ucan.Base.{
  ℕ, ◌≡◌, ◌↔◌, refl, sym, ap, List, [], ◌∷◌, ◌++◌, some, Text, subst, true, Bool-cases,
  append_assoc, append-nil, inl, inr, ◌==◌, ◌&&◌, if◌then◌else◌,
}
use pq_ucan.Policy.Glob.{
  Token, literal, any, push_char, parse_loop, parse, last_is_any, star, backslash, matches,
}
use pq_ucan.Policy.Glob.Language.{Matches, same, skip, more, any_twice, items}
use pq_ucan.Policy.Glob.Decide.{matches_iff}

abbrev Equal : List Token → List Token → Type 0
Equal ps qs = (s : Text) → Matches ps s ↔ Matches qs s

Equal-literal : (x : ℕ) (ps qs : List Token) → Equal ps qs → Equal (literal x ∷ ps) (literal x ∷ qs)
Equal-literal x ps qs e [] = (λ m. elim m [ ], λ m. elim m [ ])
Equal-literal x ps qs e (c ∷ s) = (onward ps qs (λ t. (e t).0), onward qs ps (λ t. (e t).1))
  where
    onward :
        (ps' bs : List Token)
        → ((t : Text) → Matches ps' t → Matches bs t)
        → Matches (literal x ∷ ps') (c ∷ s)
        → Matches (literal x ∷ bs) (c ∷ s)
    onward ps' bs f (same h m) = same h (f s m)

any_map :
    (ps qs : List Token)
    → ((s : Text) → Matches ps s → Matches qs s)
    → {s : Text} → Matches (any ∷ ps) s
    → Matches (any ∷ qs) s
any_map ps qs f {s} (skip m) = skip (f s m)
any_map ps qs f (more m) = more (any_map ps qs f m)

Equal-cons : (t : Token) (ps qs : List Token) → Equal ps qs → Equal (t ∷ ps) (t ∷ qs)
Equal-cons (literal x) ps qs e s = Equal-literal x ps qs e s
Equal-cons any ps qs e s = (any_map ps qs (λ t. (e t).0), any_map qs ps (λ t. (e t).1))

Equal-append : (front ps qs : List Token) → Equal ps qs → Equal (front ++ ps) (front ++ qs)
Equal-append [] ps qs e = e
Equal-append (t ∷ front) ps qs e =
    Equal-cons t (front ++ ps) (front ++ qs) (Equal-append front ps qs e)

Equal-twice : (ps : List Token) → Equal (any ∷ ps) (any ∷ any ∷ ps)
Equal-twice ps s = (skip, any_twice)

last_any :
    (ts : List Token) → last_is_any ts ≡ true → (front : List Token) × (ts ≡ front ++ any ∷ [])
last_any [] h = cc
last_any (any ∷ []) h = ([], refl)
last_any (literal x ∷ []) h = cc
last_any (t ∷ u ∷ ts) h = let (front, e) = last_any (u ∷ ts) h in (t ∷ front, ap (λ r. t ∷ r) e)

abbrev item : ℕ → Token
item c = if c == star then any else literal c

-- A star behind a star adds nothing.
merged : (ts rest : List Token) → last_is_any ts ≡ true → Equal (ts ++ rest) (ts ++ any ∷ rest)
merged ts rest h =
    let (front, e) = last_any ts h in
    subst (λ u. Equal (u ++ rest) (u ++ any ∷ rest)) (sym e)
      (rw (append_assoc, append_assoc)
        (Equal-append front (any ∷ rest) (any ∷ any ∷ rest) (Equal-twice rest)))

push_char-Equal :
    (c : ℕ) (ts rest : List Token) → Equal (push_char c ts ++ rest) (ts ++ item c ∷ rest)
unfolding push_char
push_char-Equal c ts rest = elim (Bool-cases (c == star)) [
  | inl e ↦ elim (Bool-cases (last_is_any ts)) [
    | inl l ↦ rw (e, l) (merged ts rest l)
    | inr l ↦ rw (e, l, append_assoc) (λ s. (λ m. m, λ m. m))
  ]
  | inr e ↦ rw (e, append_assoc) (λ s. (λ m. m, λ m. m))
]

Equal-trans : (ps qs rs : List Token) → Equal ps qs → Equal qs rs → Equal ps rs
Equal-trans ps qs rs e f s = (λ m. (f s).0 ((e s).0 m), λ m. (e s).1 ((f s).1 m))

pushed :
    (c : ℕ) (ts rest all : List Token)
    → Equal all (push_char c ts ++ rest)
    → Equal all (ts ++ item c ∷ rest)
pushed c ts rest all e =
    Equal-trans all (push_char c ts ++ rest) (ts ++ item c ∷ rest) e (push_char-Equal c ts rest)

parse_loop-Equal : (text : Text) (ts : List Token) → Equal (parse_loop text ts) (ts ++ items text)
unfolding parse_loop items
parse_loop-Equal [] ts = rw append-nil (λ s. (λ m. m, λ m. m))
parse_loop-Equal (c ∷ []) ts =
    pushed c ts [] (push_char c ts) (rw append-nil (λ s. (λ m. m, λ m. m)))
parse_loop-Equal (c ∷ d ∷ chars) ts = elim (Bool-cases (c == backslash && d == star)) [
  | inl e ↦ rw e (
      subst (Equal (parse_loop chars (ts ++ literal star ∷ [])))
        (append_assoc ts (literal star ∷ []) (items chars))
        (parse_loop-Equal chars (ts ++ literal star ∷ [])))
  | inr e ↦ rw e (
      pushed c ts (items (d ∷ chars)) (parse_loop (d ∷ chars) (push_char c ts))
        (parse_loop-Equal (d ∷ chars) (push_char c ts)))
]

-- A pattern compiled by `parse` matches an input exactly when the pattern's characters, read one by
-- one with `*` for any run of characters and `\*` for a star, match the whole of it.
pub matches-parse :
    (text input : Text) → (matches (parse text) input ≡ some true) ↔ Matches (items text) input
unfolding parse
matches-parse text input =
    let decided = (matches_iff (parse text) input).0 in
    let same_matches = parse_loop-Equal text [] input in
    (λ h. same_matches.0 (decided.0 h), λ m. decided.1 (same_matches.1 m))
