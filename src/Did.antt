-- ===== src/Did.antt =====
-- src/did.rs: decentralized identifiers as text, and when two of them name one principal. The
-- `did:key` form is in Did/Key.antt.
pub mod Accepted
pub mod Errors
pub mod Grammar
pub mod Key
pub mod Laws
use pq_ucan.Base.{
  ℕ, Bool, true, false, not, ◌&&◌, ◌||◌, ◌==◌, if◌then◌else◌, List, [], ◌∷◌, Option, none, some,
  all, last?, drop, take_while, text_eq, strip_prefix?, split_once, Text, Bytes, codes, utf8,
  is_ascii_digit, is_ascii_lowercase, is_ascii_alphanumeric, is_ascii_hexdigit, Result, ok, err,
  ok_or, ◌>>=◌,
}
use pq_ucan.Did.Errors.{DidError}

-- `Did(Box<str>)`.
abbrev pub Did : Type 0
Did = Text

abbrev pub colon : ℕ
colon = b':'

abbrev pub did_scheme : Text
did_scheme = codes "did:"

-- What does not end the identifier: none of `/`, `?` and `#`.
abbrev pub is_base_char : ℕ → Bool
is_base_char c = not (c == b'/' || c == b'?' || c == b'#')

abbrev pub is_method_byte : ℕ → Bool
is_method_byte b = is_ascii_lowercase b || is_ascii_digit b

abbrev pub is_id_byte : ℕ → Bool
is_id_byte b = is_ascii_alphanumeric b || b == b'.' || b == b'-' || b == b'_' || b == colon

unfoldable pub id_chars_are_valid : Bytes → Bool
id_chars_are_valid [] = true
id_chars_are_valid (b ∷ []) = is_id_byte b
id_chars_are_valid (b ∷ x ∷ []) = is_id_byte b && is_id_byte x
id_chars_are_valid (b ∷ x ∷ y ∷ bytes) =
    let escaped = is_ascii_hexdigit x && is_ascii_hexdigit y && id_chars_are_valid bytes in
    let plain = is_id_byte b && id_chars_are_valid (x ∷ y ∷ bytes) in
    if b == b'%' then escaped else plain

abbrev pub is_empty : Text → Bool
is_empty [] = true
is_empty (c ∷ t) = false

abbrev pub ends_with_colon : Text → Bool
ends_with_colon t = elim (last? t) [ none ↦ false | some c ↦ c == colon ]

unfoldable pub method_is_valid : Text → Bool
method_is_valid m = not (is_empty m || not (all is_method_byte (utf8 m)))

unfoldable pub id_is_valid : Text → Bool
unfolding id_chars_are_valid
id_is_valid id = not (is_empty id || ends_with_colon id || not (id_chars_are_valid (utf8 id)))

-- The tests of `parse` on the method name and on the identifier in front of any path, query or
-- fragment.
abbrev pub check_parts : Text → Text → Text → Result DidError Did
check_parts text method tail =
    if not (method_is_valid method)
    then err DidError.method
    else if not (id_is_valid (take_while is_base_char tail))
    then err DidError.method_id
    else ok text

unfoldable pub parse : Text → Result DidError Did
unfolding method_is_valid id_is_valid
parse text = do
  rest ← ok_or (strip_prefix? did_scheme text) DidError.scheme
  (method, tail) ← ok_or (split_once colon rest) DidError.method_id
  check_parts text method tail

-- `did:method:id`, with any path, query and fragment removed.
unfoldable pub base : Did → Text
base d = take_while is_base_char d

-- Every `Did` begins with the four bytes `did:`, so the slice from byte 4 drops four characters.
unfoldable pub method : Did → Text
unfolding base
method d = take_while (λ c. not (c == colon)) (drop 4 (base d))

abbrev pub second_or_empty : Option (Text × Text) → Text
second_or_empty none = []
second_or_empty (some (_, id)) = id

abbrev pub after_colon : Text → Text
after_colon rest = second_or_empty (split_once colon rest)

unfoldable pub method_id : Did → Text
unfolding base
method_id d = after_colon (drop 4 (base d))

unfoldable pub fragment : Did → Option Text
fragment d = elim (split_once b'#' d) [ none ↦ none | some (_, f) ↦ some f ]

unfoldable pub same_principal : Did → Did → Bool
unfolding base
same_principal d other = text_eq (base d) (base other)
