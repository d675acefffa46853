-- ===== src/Command.antt =====
-- src/command.rs: command paths. Whether a `char` is uppercase is a table of Unicode, which the
-- definitions take as an argument.
mod Split
pub mod Laws
use pq_ucan.Base.{
  ℕ, ◌≡◌, Bool, true, false, not, ◌&&◌, ◌||◌, ltb, ◌==◌, if◌then◌else◌, List, [], ◌∷◌, Option, none,
  some, any, last?, text_eq, strip_prefix?, Text, str_len, Result, ok, err,
}

abbrev pub slash : ℕ
slash = b'/'

-- `Command(Box<str>)`.
abbrev pub Command : Type 0
Command = Text

pub data CommandError : Type 0 where
  empty missing_leading_slash trailing_slash empty_segment uppercase : CommandError

abbrev pub starts_with_slash : Text → Bool
starts_with_slash [] = false
starts_with_slash (c ∷ _) = c == slash

abbrev pub ends_with_slash : Text → Bool
ends_with_slash t = elim (last? t) [ none ↦ false | some c ↦ c == slash ]

-- `text.contains("//")`.
abbrev pub contains_double_slash : Text → Bool
contains_double_slash [] = false
contains_double_slash (a ∷ []) = false
contains_double_slash (a ∷ b ∷ t) = a == slash && b == slash || contains_double_slash (b ∷ t)

abbrev is_empty : Text → Bool
is_empty [] = true
is_empty (c ∷ t) = false

unfoldable pub parse : (ℕ → Bool) → Text → Result CommandError Command
parse is_uppercase text =
    if is_empty text
    then err empty
    else if not (starts_with_slash text)
    then err missing_leading_slash
    else if ltb 1 (str_len text) && ends_with_slash text
    then err trailing_slash
    else if ltb 1 (str_len text) && contains_double_slash text
    then err empty_segment
    else if any is_uppercase text
    then err uppercase
    else ok text

abbrev pub root : Command
root = slash ∷ []

unfoldable pub is_root : Command → Bool
is_root c = text_eq c root

-- `split('/')`: the first piece and the others.
unfoldable pub split : Text → Text × List Text
split [] = ([], [])
split (c ∷ t) =
    let rest = split t in if c == slash then ([], rest.0 ∷ rest.1) else (c ∷ rest.0, rest.1)

abbrev pub drop_empty : List Text → List Text
drop_empty [] = []
drop_empty ([] ∷ ts) = drop_empty ts
drop_empty ((c ∷ t) ∷ ts) = (c ∷ t) ∷ drop_empty ts

unfoldable pub segments : Command → List Text
unfolding split
segments c = drop_empty ((split c).0 ∷ (split c).1)

unfoldable pub covers : Command → Command → Bool
unfolding is_root
covers c other = if is_root c then true else elim (strip_prefix? c other) [
  | some rest ↦ is_empty rest || starts_with_slash rest
  | none ↦ false
]
