-- ===== src/Policy/Selector/Parse.antt =====
-- src/policy/selector.rs: `Selector::parse`. A loop that jumps ahead in the characters runs on fuel;
-- `out_of_fuel` belongs to the model only.
use pq_ucan.Base.{
  ℕ, zero, suc, ◌+◌, ◌-◌, ◌*◌, ◌^◌, Bool, true, false, not, ◌&&◌, ◌||◌, ltb, leb, ◌==◌,
  if◌then◌else◌, ℤ, pos, negsuc, List, [], ◌∷◌, ◌++◌, Option, none, some, drop, length, get_elem?,
  take_while, all, Text, is_ascii_digit, is_ascii_alphabetic, is_ascii_alphanumeric,
  is_ascii_hexdigit, Result, ok, err, ◌>>=◌, ok_or,
}
use pq_ucan.Policy.Selector.{Kind, Segment, key, values, index, slice, Selector, get_range}

pub data SelectorError : Type 0 where
  empty missing_leading_dot double_dot trailing_dot dangling_optional : SelectorError
  unexpected : ℕ → SelectorError
  unterminated_string bad_escape bad_index : SelectorError
  out_of_fuel : SelectorError

abbrev Parsed : Type 0 → Type 0
Parsed = Result SelectorError

abbrev pub is_ident_start : ℕ → Bool
is_ident_start c = is_ascii_alphabetic c || c == b'_'

abbrev pub is_ident : ℕ → Bool
is_ident c = is_ascii_alphanumeric c || c == b'_'

abbrev pub is_at : Text → ℕ → ℕ → Bool
is_at chars i c = elim (get_elem? chars i) [ some d ↦ d == c | none ↦ false ]

-- The value of decimal digits behind the digits of `n`.
abbrev pub decimal : ℕ → Text → ℕ
decimal n [] = n
decimal n (d ∷ ds) = decimal (10 * n + (d - b'0')) ds

-- `str::parse::<i64>` on an optional minus and digits: none for no digit, and out of range.
unfoldable pub parse_i64 : Bool → Text → Option ℤ
parse_i64 minus [] = none
parse_i64 false (d ∷ ds) =
    let n = decimal 0 (d ∷ ds) in if ltb n (2 ^ 63) then some (pos n) else none
parse_i64 true (d ∷ ds) =
    let n = decimal 0 (d ∷ ds) in
    if n == 0 then some (pos 0) else if leb n (2 ^ 63) then some (negsuc (n - 1)) else none

abbrev is_nil : Text → Bool
is_nil [] = true
is_nil (c ∷ t) = false

unfoldable pub integer : Text → ℕ → Result SelectorError (Option ℤ × ℕ)
unfolding parse_i64
integer chars start =
    let minus = is_at chars start b'-' in
    let first = if minus then start + 1 else start in
    let digits = take_while is_ascii_digit (drop first chars) in
    if not minus && is_nil digits
    then ok (none, first)
    else (do n ← ok_or (parse_i64 minus digits) bad_index; ok (some n, first + length digits))

abbrev pub hex_value : ℕ → ℕ
hex_value c =
    if is_ascii_digit c then c - b'0' else if leb b'a' c then c - b'a' + 10 else c - b'A' + 10

abbrev pub hexadecimal : ℕ → Text → ℕ
hexadecimal n [] = n
hexadecimal n (d ∷ ds) = hexadecimal (16 * n + hex_value d) ds

abbrev hex_digits : Text → Option ℕ
hex_digits [] = none
hex_digits (c ∷ t) = if all is_ascii_hexdigit (c ∷ t) then some (hexadecimal 0 (c ∷ t)) else none

-- `u32::from_str_radix(text, 16)`, for a text of four characters. It allows a plus in front.
unfoldable pub from_str_radix_16 : Text → Option ℕ
from_str_radix_16 [] = none
from_str_radix_16 (c ∷ t) = if c == b'+' then hex_digits t else hex_digits (c ∷ t)

-- `char::from_u32`.
abbrev pub char_from_u32 : ℕ → Option ℕ
char_from_u32 n =
    if leb 0xd800 n && leb n 0xdfff then none else if leb n 0x10ffff then some n else none

-- The arm for `\u`.
unfoldable pub unicode_escape : Text → ℕ → Result SelectorError (ℕ × ℕ)
unfolding get_range from_str_radix_16
unicode_escape chars i = do
  hex ← ok_or (get_range chars (i + 1) (i + 5)) bad_escape
  n ← ok_or (from_str_radix_16 hex) bad_escape
  c ← ok_or (char_from_u32 n) bad_escape
  ok (c, i + 4)

-- The character that the escape at `i` stands for, and where it ends.
unfoldable pub escape : Text → ℕ → Result SelectorError (ℕ × ℕ)
unfolding unicode_escape
escape chars i =
    if is_at chars i b'"'
    then ok (b'"', i)
    else if is_at chars i 92
    then ok (92, i)
    else if is_at chars i b'/'
    then ok (b'/', i)
    else if is_at chars i b'b'
    then ok (0x8, i)
    else if is_at chars i b'f'
    then ok (0xc, i)
    else if is_at chars i b'n'
    then ok (0xa, i)
    else if is_at chars i b'r'
    then ok (0xd, i)
    else if is_at chars i b't'
    then ok (0x9, i)
    else if is_at chars i b'u'
    then unicode_escape chars i
    else err bad_escape

-- One round of the loop of `quoted` on the character `c` at `i`, which is no quote: what to push and
-- the position to go on at.
unfoldable pub quoted_char : Text → ℕ → ℕ → Result SelectorError (ℕ × ℕ)
unfolding escape
quoted_char chars c i =
    if c == 92 then (do (e, j) ← escape chars (i + 1); ok (e, j + 1)) else ok (c, i + 1)

unfoldable pub quoted_loop : ℕ → Text → Text → ℕ → Result SelectorError (Text × ℕ)
unfolding quoted_char
quoted_loop zero chars out i = err out_of_fuel
quoted_loop (suc fuel) chars out i = elim (get_elem? chars i) [
  | none ↦ err unterminated_string
  | some c ↦
      if c == b'"'
      then ok (out, i + 1)
      else (do (e, j) ← quoted_char chars c i; quoted_loop fuel chars (out ++ e ∷ []) j)
]

unfoldable pub quoted : Text → ℕ → Result SelectorError (Text × ℕ)
unfolding quoted_loop
quoted chars start = quoted_loop (suc (length chars)) chars [] start

-- The closing bracket, with what was read in front of it.
abbrev pub closed : Text → ℕ → Kind → Result SelectorError (Kind × ℕ)
closed chars i kind = if is_at chars i b']' then ok (kind, i + 1) else err (unexpected i)

-- What follows the first number of an index or a slice.
unfoldable pub behind_first : Text → Option ℤ → ℕ → Result SelectorError (Kind × ℕ)
unfolding integer
behind_first chars first i =
    if is_at chars i b':'
    then (do (second, next) ← integer chars (i + 1); closed chars next (slice first second))
    else (do n ← ok_or first bad_index; closed chars i (index n))

-- The arm of `bracket` on an index or a slice.
unfoldable pub index_or_slice : Text → ℕ → Result SelectorError (Kind × ℕ)
unfolding behind_first
index_or_slice chars start = do (first, i) ← integer chars start; behind_first chars first i

-- The arm of `bracket` on a quote.
unfoldable pub quoted_key : Text → ℕ → Result SelectorError (Kind × ℕ)
unfolding quoted
quoted_key chars start = do (k, next) ← quoted chars (start + 1); closed chars next (key k)

abbrev pub starts_index : ℕ → Bool
starts_index c = c == b'-' || c == b':' || is_ascii_digit c

unfoldable pub bracket : Text → ℕ → Result SelectorError (Kind × ℕ)
unfolding quoted_key index_or_slice
bracket chars start = elim (get_elem? chars start) [
  | none ↦ err (unexpected start)
  | some c ↦
      if c == b']'
      then ok (values, start + 1)
      else if c == b'"'
      then quoted_key chars start
      else if starts_index c
      then index_or_slice chars start
      else err (unexpected start)
]

-- `last_mut()`, made optional.
abbrev pub mark_last : List Segment → Option (List Segment)
mark_last [] = none
mark_last (s ∷ []) = some (record s { optional = true } ∷ [])
mark_last (s ∷ t ∷ ss) = elim (mark_last (t ∷ ss)) [ some r ↦ some (s ∷ r) | none ↦ none ]

abbrev pub push : List Segment → Kind → List Segment
push segments kind = segments ++ record { kind = kind; optional = false } ∷ []

abbrev State : Type 0
State = List Segment × Bool × ℕ

unfoldable pub bracket_arm :
    Text → List Segment → ℕ → Result SelectorError (List Segment × Bool × ℕ)
unfolding bracket
bracket_arm chars segments i = do
  (kind, next) ← bracket chars (i + 1)
  ok (push segments kind, false, next)

abbrev pub optional_arm : List Segment → Bool → ℕ → Result SelectorError (List Segment × Bool × ℕ)
optional_arm segments dot_pending i =
    if dot_pending
    then err dangling_optional
    else (do marked ← ok_or (mark_last segments) dangling_optional; ok (marked, dot_pending, i + 1))

abbrev pub ident_at : Text → ℕ → Text
ident_at chars i = take_while is_ident (drop i chars)

-- One round of the loop of `parse` on the character `c` at `i`.
unfoldable pub parse_char :
    Text → List Segment → Bool → ℕ → ℕ → Result SelectorError (List Segment × Bool × ℕ)
unfolding bracket_arm
parse_char chars segments dot_pending c i =
    if c == b'.'
    then if dot_pending then err double_dot else ok (segments, true, i + 1)
    else if c == b'['
    then bracket_arm chars segments i
    else if c == b'?'
    then optional_arm segments dot_pending i
    else if is_ident_start c
    then if dot_pending
      then ok (push segments (key (ident_at chars i)), false, i + length (ident_at chars i))
      else err (unexpected i)
    else err (unexpected i)

abbrev pub has_segment : List Segment → Bool
has_segment [] = false
has_segment (s ∷ ss) = true

abbrev pub finish : List Segment → Bool → Result SelectorError (List Segment)
finish segments dot_pending =
    if dot_pending && has_segment segments then err trailing_dot else ok segments

unfoldable pub parse_loop : ℕ → Text → List Segment → Bool → ℕ → Result SelectorError (List Segment)
unfolding parse_char
parse_loop zero chars segments dot_pending i = err out_of_fuel
parse_loop (suc fuel) chars segments dot_pending i = elim (get_elem? chars i) [
  | none ↦ finish segments dot_pending
  | some c ↦ do
    (segments', dot_pending', j) ← parse_char chars segments dot_pending c i
    parse_loop fuel chars segments' dot_pending' j
]

unfoldable pub parse : Text → Result SelectorError Selector
unfolding parse_loop
parse [] = err empty
parse (c ∷ chars) = if not (c == b'.') then err missing_leading_dot else (do
  segments ← parse_loop (suc (length (c ∷ chars))) (c ∷ chars) [] true 1
  ok (record { text = c ∷ chars; segments = segments }))
