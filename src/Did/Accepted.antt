-- ===== src/Did/Accepted.antt =====
-- src/did.rs: the texts that `parse` accepts.
use pq_ucan.Base.{
  ◌≡◌, ◌↔◌, inl, inr, refl, ap, sym, subst, ◌∙◌, true, false, ◌==◌, Bool-cases, [], ◌∷◌, ◌++◌,
  append-nil, All, take_while, take_while-append, Text, ok, arith,
}
use pq_ucan.Did.{colon, did_scheme, is_base_char, parse}
use pq_ucan.Did.Grammar.{
  IsMethodChar, IsId, IsSuffix, Grammar, method_is_valid_iff, id_is_valid_iff,
}
use pq_ucan.Did.Laws.{Parts, parse-Parts, parse_written}

-- What is left of a text behind its base.
after_base : (t : Text) → (s : Text) × IsSuffix s × (t ≡ take_while is_base_char t ++ s)
after_base [] = ([], tt, refl)
after_base (c ∷ t) = elim (Bool-cases (is_base_char c)) [
  | inl inside ↦ let (s, suffix, cut) = after_base t in (s, suffix, rw inside (ap (λ l. c ∷ l) cut))
  | inr ends ↦ (c ∷ t, ground arith, rw ends refl)
]

suffix-base : (s : Text) → IsSuffix s → take_while is_base_char s ≡ []
suffix-base [] h = refl
suffix-base (c ∷ s) h = ground arith

IsId-base : {i : Text} → IsId i → All (λ c. is_base_char c ≡ true) i
IsId-base (IsId.last_char c h) = (ground arith, tt)
IsId-base (IsId.last_escape x y hx hy) = (refl, (ground arith, (ground arith, tt)))
IsId-base (IsId.char c h d) = (ground arith, IsId-base d)
IsId-base (IsId.escape x y hx hy d) = (refl, (ground arith, (ground arith, IsId-base d)))
IsId-base (IsId.separated d) = (refl, IsId-base d)

name-no_colon : (m : Text) → All IsMethodChar m → All (λ c. (c == colon) ≡ false) m
name-no_colon [] h = tt
name-no_colon (c ∷ m) h = (ground arith, name-no_colon m h.1)

Parts-Grammar : {t : Text} → Parts t → Grammar t
Parts-Grammar {t} parts =
    let (s, suffix, cut) = after_base parts.tail in
    let (full, chars) = (method_is_valid_iff parts.name).0 parts.name_valid in
    record {
      name = parts.name;
      id = take_while is_base_char parts.tail;
      suffix = s;
      has_name = full;
      name_chars = chars;
      is_id = (id_is_valid_iff (take_while is_base_char parts.tail)).0 parts.id_valid;
      is_suffix = suffix;
      written = parts.written ∙ ap (λ l. did_scheme ++ parts.name ++ colon ∷ l) cut;
    }

Grammar-parse : (t : Text) → Grammar t → parse t ≡ ok t
Grammar-parse t g =
    let base : take_while is_base_char (g.id ++ g.suffix) ≡ g.id =
      take_while-append is_base_char g.id g.suffix (IsId-base g.is_id)
      ∙ ap (λ l. g.id ++ l) (suffix-base g.suffix g.is_suffix)
      ∙ append-nil g.id in
    subst (λ u. parse u ≡ ok u) (sym g.written)
      (parse_written g.name (g.id ++ g.suffix) (name-no_colon g.name g.name_chars)
        ((method_is_valid_iff g.name).1 (g.has_name, g.name_chars))
        (rw base ((id_is_valid_iff g.id).1 g.is_id)))

-- `parse` accepts exactly the texts of the grammar, and returns them unchanged: `did:`, a method name
-- of lowercase letters and digits, a colon, an identifier of letters, digits, `.`, `-`, `_`, escapes
-- and colons that does not end with a colon, and any path, query or fragment. Neither the name nor
-- the identifier is empty.
pub parse_iff : (t d : Text) → (parse t ≡ ok d) ↔ ((d ≡ t) × Grammar t)
parse_iff t d = (
  λ h. let (same, parts) = parse-Parts t d h in (same, Parts-Grammar parts),
  λ (same, g). Grammar-parse t g ∙ ap ok (sym same),
)
