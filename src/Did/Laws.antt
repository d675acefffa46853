-- ===== src/Did/Laws.antt =====
-- src/did.rs: what a parsed DID is made of, and that naming one principal is an equivalence.
use pq_ucan.Base.{
  drop, append-nil, ℕ, ◌≡◌, ◌≢◌, refl, sym, ◌∙◌, ap, subst, Bool, true, false, not, ◌&&◌, ◌==◌, [],
  ◌∷◌, ◌++◌, all, All, take_while, take_while-append, take_while-All, take_while-id, text_eq_iff,
  text_eq_refl, strip_prefix?, strip_prefix?-some, split_once, split_once-some, split_once-append,
  Text, utf8, utf8_char, ok, arith, ◌↔◌, &&_iff, >>=-eq-ok, ok_or, ok_or-eq-ok,
}
use pq_ucan.Did.Errors.{DidError}
use pq_ucan.Did.{
  Did, colon, check_parts, did_scheme, is_base_char, is_method_byte, after_colon, second_or_empty,
  method_is_valid, id_is_valid, parse, base, method, method_id, same_principal,
}

-- The parts that `parse` finds in a text.
pub record Parts (t : Text) : Type 0 where
  pub name : Text
  pub tail : Text
  pub written : t ≡ did_scheme ++ name ++ colon ∷ tail
  pub no_colon : All (λ c. (c == colon) ≡ false) name
  pub name_valid : method_is_valid name ≡ true
  pub id_valid : id_is_valid (take_while is_base_char tail) ≡ true

check_parts-ok :
    (t name tail d : Text)
    → check_parts t name tail ≡ ok d
    → (d ≡ t) × (method_is_valid name ≡ true) × (id_is_valid (take_while is_base_char tail) ≡ true)
check_parts-ok t name tail d h = ground arith

pub parse-Parts : (t d : Text) → parse t ≡ ok d → (d ≡ t) × Parts t
unfolding parse
parse-Parts t d h =
    let (rest, e, h') = >>=-eq-ok (ok_or (strip_prefix? did_scheme t) DidError.scheme) _ h in
    let ((name, tail), e', h'') =
      >>=-eq-ok (ok_or (split_once colon rest) DidError.method_id) _ h' in
    let (same, name_ok, id_ok) = check_parts-ok t name tail d h'' in
    let (cut, free) = split_once-some colon rest name tail (ok_or-eq-ok _ _ e') in
    (
      same,
      record {
        name = name;
        tail = tail;
        written =
            strip_prefix?-some did_scheme t rest (ok_or-eq-ok _ _ e)
            ∙ ap (λ r. did_scheme ++ r) cut;
        no_colon = free;
        name_valid = name_ok;
        id_valid = id_ok;
      },
    )

all-append : (p : ℕ → Bool) (a b : Text) → all p (a ++ b) ≡ all p a && all p b
all-append p [] b = refl
all-append p (x ∷ a) b = ground (arith, all-append p a b)

method_char : (c : ℕ) → all is_method_byte (utf8_char c) ≡ true → is_base_char c ≡ true
unfolding utf8_char
method_char c h = ground arith

method_chars : (m : Text) → all is_method_byte (utf8 m) ≡ true → All (λ c. is_base_char c ≡ true) m
unfolding utf8
method_chars [] h = tt
method_chars (c ∷ m) h =
    let both = (&&_iff _ _).0 (sym (all-append is_method_byte (utf8_char c) (utf8 m)) ∙ h) in
    (method_char c both.0, method_chars m both.1)

name_chars : (m : Text) → method_is_valid m ≡ true → All (λ c. is_base_char c ≡ true) m
unfolding method_is_valid
name_chars [] h = cc
name_chars (c ∷ m) h = method_chars (c ∷ m) (ground arith)

not_colon : (m : Text) → All (λ c. (c == colon) ≡ false) m → All (λ c. not (c == colon) ≡ true) m
not_colon [] h = tt
not_colon (c ∷ m) h = (ap not h.0, not_colon m h.1)

check_parts-good :
    (t name tail : Text)
    → method_is_valid name ≡ true
    → id_is_valid (take_while is_base_char tail) ≡ true
    → check_parts t name tail ≡ ok t
check_parts-good t name tail hn hi = ground arith

-- A text of the grammar `did:name:tail` is accepted, where the name has no colon and passes the
-- test for methods, and the part of the tail in front of any path, query or fragment passes the
-- test for identifiers.
pub parse_written :
    (name tail : Text)
    → All (λ c. (c == colon) ≡ false) name
    → method_is_valid name ≡ true
    → id_is_valid (take_while is_base_char tail) ≡ true
    → parse (did_scheme ++ name ++ colon ∷ tail) ≡ ok (did_scheme ++ name ++ colon ∷ tail)
parse_written name tail free hn hi =
    unfold parse in
    rw (split_once-append colon name tail free)
      (check_parts-good (did_scheme ++ name ++ colon ∷ tail) name tail hn hi)

module _ {t : Text} (parts : Parts t) where
  open parts use {name, tail, written, no_colon, name_valid, id_valid}

  abbrev id : Text
  id = take_while is_base_char tail

  id_chars : All (λ c. is_base_char c ≡ true) id
  id_chars = take_while-All is_base_char tail

  base-Parts : base t ≡ did_scheme ++ name ++ colon ∷ id
  unfolding base
  base-Parts =
      rw (written, take_while-append is_base_char name (colon ∷ tail) (name_chars name name_valid))

  method-Parts : method t ≡ name
  unfolding method
  method-Parts =
      ap (λ b. take_while (λ c. not (c == colon)) (drop 4 b)) base-Parts
      ∙ take_while-append (λ c. not (c == colon)) name (colon ∷ id) (not_colon name no_colon)
      ∙ append-nil name

  method_id-Parts : method_id t ≡ id
  unfolding method_id
  method_id-Parts =
      ap (λ (b : Text). after_colon (drop 4 b)) base-Parts
      ∙ ap second_or_empty (split_once-append colon name id no_colon)

  parse-base-Parts : parse (base t) ≡ ok (base t)
  parse-base-Parts = rw base-Parts (
      parse_written name id no_colon name_valid
        (rw (take_while-id is_base_char id id_chars) id_valid))

-- What an accepted DID is made of: its base is `did:`, the method name, a colon and the
-- method-specific identifier, which `method` and `method_id` return and which are not empty; the
-- base is itself accepted, and names the same principal.
pub record IsDid (d : Did) : Type 0 where
  pub written : base d ≡ did_scheme ++ method d ++ colon ∷ method_id d
  pub has_method : method d ≢ []
  pub has_id : method_id d ≢ []
  pub base_accepted : parse (base d) ≡ ok (base d)
  pub base_names : same_principal (base d) d ≡ true

name-ne-empty : (m : Text) → method_is_valid m ≡ true → m ≢ []
unfolding method_is_valid
name-ne-empty [] h e = cc
name-ne-empty (c ∷ m) h e = cc

id-ne-empty : (i : Text) → id_is_valid i ≡ true → i ≢ []
unfolding id_is_valid
id-ne-empty [] h e = cc
id-ne-empty (c ∷ i) h e = cc

same_principal-base : (d : Did) → same_principal (base d) d ≡ true
unfolding same_principal
same_principal-base d =
    rw (take_while-id is_base_char (base d) (take_while-All is_base_char d)) (text_eq_refl (base d))

Parts-IsDid : {t : Text} → Parts t → IsDid t
Parts-IsDid {t} parts = record {
  written = rw (base-Parts parts, method-Parts parts, method_id-Parts parts);
  has_method = rw (method-Parts parts) (name-ne-empty (parts.name) parts.name_valid);
  has_id =
      rw (method_id-Parts parts) (id-ne-empty (take_while is_base_char parts.tail) parts.id_valid);
  base_accepted = parse-base-Parts parts;
  base_names = same_principal-base t;
}

-- A text that `parse` accepts is returned unchanged, and satisfies `IsDid`.
pub parse-IsDid : (t d : Text) → parse t ≡ ok d → (d ≡ t) × IsDid d
parse-IsDid t d h =
    let (same, parts) = parse-Parts t d h in (same, subst IsDid (sym same) (Parts-IsDid parts))

-- Two DIDs name one principal exactly when their bases are the same text.
pub same_principal_iff : (c d : Did) → (same_principal c d ≡ true) ↔ (base c ≡ base d)
unfolding same_principal
same_principal_iff c d = text_eq_iff (base c) (base d)

pub same_principal_refl : (d : Did) → same_principal d d ≡ true
same_principal_refl d = (same_principal_iff d d).1 refl

pub same_principal_sym : (c d : Did) → same_principal c d ≡ true → same_principal d c ≡ true
same_principal_sym c d h = (same_principal_iff d c).1 (sym ((same_principal_iff c d).0 h))

pub same_principal_trans :
    (c d e : Did)
    → same_principal c d ≡ true
    → same_principal d e ≡ true
    → same_principal c e ≡ true
same_principal_trans c d e h k =
    (same_principal_iff c e).1 ((same_principal_iff c d).0 h ∙ (same_principal_iff d e).0 k)
