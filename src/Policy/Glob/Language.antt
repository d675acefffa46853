-- ===== src/Policy/Glob/Language.antt =====
-- src/policy/glob.rs: what it means for a text to match tokens, with no search order in it.
use pq_ucan.Base.{ℕ, ◌≡◌, refl, true, ◌&&◌, List, [], ◌∷◌, all, Text, ◌==◌, if◌then◌else◌}
use pq_ucan.Policy.Glob.{Token, literal, any, is_any, star, backslash}

pub data Matches : List Token → Text → Type 0 where
  done : Matches [] []
  same :
      {x c : ℕ} {ts : List Token} {s : Text}
      → c ≡ x
      → Matches ts s
      → Matches (literal x ∷ ts) (c ∷ s)
  skip : {ts : List Token} {s : Text} → Matches ts s → Matches (any ∷ ts) s
  more : {c : ℕ} {ts : List Token} {s : Text} → Matches (any ∷ ts) s → Matches (any ∷ ts) (c ∷ s)

module _ {ts : List Token} where
  pub same_inv : {x c : ℕ} {s : Text} → Matches (literal x ∷ ts) (c ∷ s) → (c ≡ x) × Matches ts s
  same_inv (same e m) = (e, m)

  -- A star that does not stop here takes one more character.
  pub any_step :
      {c : ℕ} {s : Text} → Matches (any ∷ ts) (c ∷ s) → ¬ Matches ts (c ∷ s) → Matches (any ∷ ts) s
  any_step (skip m) n = absurd (n m)
  any_step (more m) n = m

  pub any_end : Matches (any ∷ ts) [] → Matches ts []
  any_end (skip m) = m

  pub any_twice : {s : Text} → Matches (any ∷ any ∷ ts) s → Matches (any ∷ ts) s
  any_twice (skip m) = m
  any_twice (more m) = more (any_twice m)

  -- Behind a star, consuming the first character of the text with a literal loses no match.
  pub any_literal :
      {x c : ℕ} (s : Text) → Matches (any ∷ literal x ∷ ts) (c ∷ s) → Matches (any ∷ ts) s
  any_literal s (skip (same e m)) = skip m
  any_literal [] (more (skip m)) = elim m [ ]
  any_literal (d ∷ s) (more m) = more (any_literal s m)

pub all_any→Matches : (ts : List Token) → all is_any ts ≡ true → Matches ts []
all_any→Matches [] h = done
all_any→Matches (any ∷ ts) h = skip (all_any→Matches ts h)
all_any→Matches (literal x ∷ ts) h = cc

pub Matches→all_any : {ts : List Token} → Matches ts [] → all is_any ts ≡ true
Matches→all_any done = refl
Matches→all_any (skip m) = Matches→all_any m

-- The tokens of a pattern read one character at a time, with each star a token of its own:
-- `\*` is a literal star, `*` is any run of characters, all else is itself.
unfoldable pub items : Text → List Token
items [] = []
items (c ∷ []) = (if c == star then any else literal c) ∷ []
items (c ∷ d ∷ chars) =
    let escaped = items chars in
    let plain = items (d ∷ chars) in
    if c == backslash && d == star
    then literal star ∷ escaped
    else (if c == star then any else literal c) ∷ plain
