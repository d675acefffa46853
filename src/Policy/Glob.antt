-- ===== src/Policy/Glob.antt =====
-- src/policy/glob.rs: `like` patterns. The matcher's loop runs on fuel; `none` is running out of it.
pub mod Language
mod Invariant
pub mod Decide
pub mod Compile
use pq_ucan.Base.{
  ℕ, zero, suc, ◌+◌, ◌*◌, Bool, true, false, not, ◌&&◌, ◌==◌, ltb, leb, if◌then◌else◌, List, [],
  ◌∷◌, ◌++◌, Option, none, some, all, drop, length, last?, get_elem?, Text,
}

pub data Token : Type 0 where
  literal : ℕ → Token
  any : Token

-- The tokens, and the text that they were read from.
pub record Pattern : Type 0 where
  pub text : Text
  pub tokens : List Token

abbrev pub star : ℕ
star = b'*'

abbrev pub backslash : ℕ
backslash = 92

abbrev pub is_any : Token → Bool
is_any any = true
is_any (literal c) = false

abbrev pub last_is_any : List Token → Bool
last_is_any tokens = elim (last? tokens) [ none ↦ false | some token ↦ is_any token ]

-- The arms of `parse` on a character that begins no escape.
unfoldable pub push_char : ℕ → List Token → List Token
push_char c tokens =
    if c == star
    then if last_is_any tokens then tokens else tokens ++ any ∷ []
    else tokens ++ literal c ∷ []

unfoldable pub parse_loop : Text → List Token → List Token
unfolding push_char
parse_loop [] tokens = tokens
parse_loop (c ∷ []) tokens = push_char c tokens
parse_loop (c ∷ d ∷ chars) tokens =
    let escaped = parse_loop chars (tokens ++ literal star ∷ []) in
    let plain = parse_loop (d ∷ chars) (push_char c tokens) in
    if c == backslash && d == star then escaped else plain

unfoldable pub parse : Text → Pattern
unfolding parse_loop
parse text = record { text = text; tokens = parse_loop text [] }

-- The positions of the last star and of the input that it has matched up to.
abbrev pub Backtrack : Type 0
Backtrack = Option (ℕ × ℕ)

abbrev pub Round : Type 0
Round = ℕ → ℕ → Backtrack → Option Bool

-- The last arm of the loop's `match`.
unfoldable pub retry : Round → Backtrack → Option Bool
retry next none = some false
retry next (some (star_at, matched)) =
    next (suc matched) (suc star_at) (some (star_at, suc matched))

-- The test behind the loop: nothing but stars is left.
unfoldable pub rest_is_any : List Token → ℕ → Bool
rest_is_any tokens t = if leb t (length tokens) then all is_any (drop t tokens) else false

-- The loop's `match` on the token at `t`, for the character `c` of the input at `s`.
unfoldable pub arm : Round → Option Token → ℕ → ℕ → ℕ → Backtrack → Option Bool
unfolding retry
arm next (some any) c s t back = next s (suc t) (some (t, s))
arm next (some (literal x)) c s t back =
    if c == x then next (suc s) (suc t) back else retry next back
arm next none c s t back = retry next back

unfoldable pub matches_loop : ℕ → List Token → Text → Round
unfolding arm rest_is_any
matches_loop zero tokens input s t back = none
matches_loop (suc fuel) tokens input s t back = elim (get_elem? input s) [
  | some c ↦ arm (matches_loop fuel tokens input) (get_elem? tokens t) c s t back
  | none ↦ some (rest_is_any tokens t)
]

-- Each retry moves a saved star by one character, and between two retries each round moves on by
-- one token at least.
abbrev pub fuel_for : Pattern → Text → ℕ
fuel_for p input = suc ((length input + 1) * (length p.tokens + 1))

unfoldable pub matches : Pattern → Text → Option Bool
unfolding matches_loop
matches p input = matches_loop (fuel_for p input) p.tokens input 0 0 none
