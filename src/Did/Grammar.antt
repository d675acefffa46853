-- ===== src/Did/Grammar.antt =====
-- src/did.rs: the grammar of DIDs, and the tests on method names and identifiers.
use pq_ucan.Base.{
  ℕ, ◌≤◌, ◌<◌, ◌≡◌, ◌≢◌, ◌↔◌, ◌⊎◌, inl, inr, refl, sym, subst, true, false, ◌==◌, Bool-cases,
  &&_iff, ==_iff, [], ◌∷◌, ◌++◌, all, All, Text, utf8, utf8_char, is_ascii_hexdigit, arith,
}
use pq_ucan.Did.{
  colon, did_scheme, is_method_byte, is_id_byte, id_chars_are_valid, ends_with_colon,
  method_is_valid, id_is_valid,
}

abbrev IsDigit : ℕ → Type 0
IsDigit c = (b'0' ≤ c) × (c ≤ b'9')

abbrev IsLower : ℕ → Type 0
IsLower c = (b'a' ≤ c) × (c ≤ b'z')

-- A character of a method name.
abbrev pub IsMethodChar : ℕ → Type 0
IsMethodChar c = IsLower c ⊎ IsDigit c

-- A character of an identifier that stands for itself.
abbrev pub IsIdChar : ℕ → Type 0
IsIdChar c =
    IsLower c ⊎ ((b'A' ≤ c) × (c ≤ b'Z')) ⊎ IsDigit c ⊎ (c ≡ b'.') ⊎ (c ≡ b'-') ⊎ (c ≡ b'_')

abbrev pub IsHexDigit : ℕ → Type 0
IsHexDigit c = IsDigit c ⊎ ((b'a' ≤ c) × (c ≤ b'f')) ⊎ ((b'A' ≤ c) × (c ≤ b'F'))

-- Characters, escapes of a percent sign and two hexadecimal digits, and colons, none of them last.
pub data IsId : Text → Type 0 where
  last_char : (c : ℕ) → IsIdChar c → IsId (c ∷ [])
  last_escape : (x y : ℕ) → IsHexDigit x → IsHexDigit y → IsId (b'%' ∷ x ∷ y ∷ [])
  char : (c : ℕ) {t : Text} → IsIdChar c → IsId t → IsId (c ∷ t)
  escape : (x y : ℕ) {t : Text} → IsHexDigit x → IsHexDigit y → IsId t → IsId (b'%' ∷ x ∷ y ∷ t)
  separated : {t : Text} → IsId t → IsId (colon ∷ t)

-- Nothing, or a path, a query or a fragment.
abbrev pub IsSuffix : Text → Type 0
IsSuffix [] = Unit
IsSuffix (c ∷ t) = (c ≡ b'/') ⊎ (c ≡ b'?') ⊎ (c ≡ b'#')

-- The text is `did:`, a method name, a colon, an identifier and a suffix.
pub record Grammar (t : Text) : Type 0 where
  pub name : Text
  pub id : Text
  pub suffix : Text
  pub has_name : name ≢ []
  pub name_chars : All IsMethodChar name
  pub is_id : IsId id
  pub is_suffix : IsSuffix suffix
  pub written : t ≡ did_scheme ++ name ++ colon ∷ (id ++ suffix)

abbrev IsAscii : ℕ → Type 0
IsAscii c = c < 128

utf8_id : (t : Text) → All IsAscii t → utf8 t ≡ t
unfolding utf8 utf8_char
utf8_id [] h = refl
utf8_id (c ∷ t) h = ground (arith, utf8_id t h.1)

utf8-IsAscii_back : (t : Text) → All IsAscii (utf8 t) → All IsAscii t
unfolding utf8 utf8_char
utf8-IsAscii_back [] h = tt
utf8-IsAscii_back (c ∷ t) h = ground (arith, utf8-IsAscii_back t)

id_byte_iff : (c : ℕ) → (is_id_byte c ≡ true) ↔ ((c ≡ colon) ⊎ IsIdChar c)
id_byte_iff c = ground arith

hexdigit_iff : (c : ℕ) → (is_ascii_hexdigit c ≡ true) ↔ IsHexDigit c
hexdigit_iff c = ground arith

id_byte-IsAscii : (c : ℕ) → is_id_byte c ≡ true → IsAscii c
id_byte-IsAscii c h = ground arith

hexdigit-IsAscii : (c : ℕ) → is_ascii_hexdigit c ≡ true → IsAscii c
hexdigit-IsAscii c h = ground arith

-- A valid identifier begins with an escape or with a character of its own.
id_chars-cases :
    (b x y : ℕ) (t : Text)
    → id_chars_are_valid (b ∷ x ∷ y ∷ t) ≡ true
    → ((b ≡ b'%')
        × (is_ascii_hexdigit x ≡ true)
        × (is_ascii_hexdigit y ≡ true)
        × (id_chars_are_valid t ≡ true))
      ⊎ ((is_id_byte b ≡ true) × (id_chars_are_valid (x ∷ y ∷ t) ≡ true))
unfolding id_chars_are_valid
id_chars-cases b x y t h = elim (Bool-cases (b == b'%')) [
  | inl percent ↦
      let (digits, valid) = (&&_iff _ _).0 (rw percent at h) in
      let (hx, hy) = (&&_iff _ _).0 digits in inl ((==_iff b b'%').0 percent, hx, hy, valid)
  | inr plain ↦ inr ((&&_iff _ _).0 (rw plain at h))
]

id_chars-IsAscii : (t : Text) → id_chars_are_valid t ≡ true → All IsAscii t
unfolding id_chars_are_valid
id_chars-IsAscii [] h = tt
id_chars-IsAscii (b ∷ []) h = (id_byte-IsAscii b h, tt)
id_chars-IsAscii (b ∷ x ∷ []) h =
    let (hb, hx) = (&&_iff _ _).0 h in (id_byte-IsAscii b hb, (id_byte-IsAscii x hx, tt))
id_chars-IsAscii (b ∷ x ∷ y ∷ t) h = elim (id_chars-cases b x y t h) [
  | inl (percent, hx, hy, rest) ↦ (
    omega (arith, percent),
    (hexdigit-IsAscii x hx, (hexdigit-IsAscii y hy, id_chars-IsAscii t rest)),
  )
  | inr (hb, rest) ↦ (id_byte-IsAscii b hb, id_chars-IsAscii (x ∷ y ∷ t) rest)
]

method_chars-IsAscii : (t : Text) → all is_method_byte t ≡ true → All IsAscii t
method_chars-IsAscii [] h = tt
method_chars-IsAscii (c ∷ t) h = ground (arith, method_chars-IsAscii t)

method_chars_iff : (t : Text) → (all is_method_byte t ≡ true) ↔ All IsMethodChar t
method_chars_iff [] = (λ h. tt, λ h. refl)
method_chars_iff (c ∷ t) = ground (arith, method_chars_iff t)

id_chars-cons :
    (b : ℕ) (t : Text)
    → is_id_byte b ≡ true
    → id_chars_are_valid t ≡ true
    → id_chars_are_valid (b ∷ t) ≡ true
unfolding id_chars_are_valid
id_chars-cons b [] hb h = hb
id_chars-cons b (x ∷ []) hb h = ground arith
id_chars-cons b (x ∷ y ∷ t) hb h = ground arith

id_chars-escape :
    (x y : ℕ) (t : Text)
    → IsHexDigit x
    → IsHexDigit y
    → id_chars_are_valid t ≡ true
    → id_chars_are_valid (b'%' ∷ x ∷ y ∷ t) ≡ true
unfolding id_chars_are_valid
id_chars-escape x y t hx hy h = rw ((hexdigit_iff x).1 hx, (hexdigit_iff y).1 hy, h) refl

ends-cons :
    (b : ℕ) (t : Text) → ends_with_colon t ≡ false → t ≢ [] → ends_with_colon (b ∷ t) ≡ false
ends-cons b [] h full = absurd (full refl)
ends-cons b (x ∷ t) h full = h

IsId-valid :
    {t : Text} → IsId t → (id_chars_are_valid t ≡ true) × (ends_with_colon t ≡ false) × (t ≢ [])
unfolding id_chars_are_valid
IsId-valid (IsId.last_char c h) = ((id_byte_iff c).1 (inr h), ground arith, λ e. cc)
IsId-valid (IsId.last_escape x y hx hy) = (id_chars-escape x y [] hx hy refl, ground arith, λ e. cc)
IsId-valid (IsId.char c {t} h d) =
    let (valid, ends, full) = IsId-valid d in
    (id_chars-cons c t ((id_byte_iff c).1 (inr h)) valid, ends-cons c t ends full, λ e. cc)
IsId-valid (IsId.escape x y {t} hx hy d) =
    let (valid, ends, full) = IsId-valid d in
    (
      id_chars-escape x y t hx hy valid,
      ends-cons b'%' (x ∷ y ∷ t) (ends-cons x (y ∷ t) (ends-cons y t ends full) (λ e. cc))
          (λ e. cc),
      λ e. cc,
    )
IsId-valid (IsId.separated {t} d) =
    let (valid, ends, full) = IsId-valid d in
    (
      id_chars-cons colon t ((id_byte_iff colon).1 (inl refl)) valid,
      ends-cons colon t ends full,
      λ e. cc,
    )

-- A byte of its own in front of an identifier.
byte-IsId : (b : ℕ) {t : Text} → is_id_byte b ≡ true → IsId t → IsId (b ∷ t)
byte-IsId b {t} h d = elim ((id_byte_iff b).0 h) [
  | inl is_colon ↦ subst (λ c. IsId (c ∷ t)) (sym is_colon) (IsId.separated d)
  | inr own ↦ IsId.char b own d
]

last-IsId : (b : ℕ) → is_id_byte b ≡ true → ends_with_colon (b ∷ []) ≡ false → IsId (b ∷ [])
last-IsId b h ends = elim ((id_byte_iff b).0 h) [
  | inl is_colon ↦ ground arith
  | inr own ↦ IsId.last_char b own
]

valid-IsId : (t : Text) → id_chars_are_valid t ≡ true → ends_with_colon t ≡ false → t ≢ [] → IsId t
unfolding id_chars_are_valid
valid-IsId [] h ends full = absurd (full refl)
valid-IsId (b ∷ []) h ends full = last-IsId b h ends
valid-IsId (b ∷ x ∷ []) h ends full =
    let (hb, hx) = (&&_iff _ _).0 h in byte-IsId b hb (last-IsId x hx ends)
valid-IsId (b ∷ x ∷ y ∷ []) h ends full = elim (id_chars-cases b x y [] h) [
  | inl (percent, hx, hy, rest) ↦
      subst (λ c. IsId (c ∷ x ∷ y ∷ [])) (sym percent)
        (IsId.last_escape x y ((hexdigit_iff x).0 hx) ((hexdigit_iff y).0 hy))
  | inr (hb, rest) ↦ byte-IsId b hb (valid-IsId (x ∷ y ∷ []) rest ends (λ e. cc))
]
valid-IsId (b ∷ x ∷ y ∷ z ∷ t) h ends full = elim (id_chars-cases b x y (z ∷ t) h) [
  | inl (percent, hx, hy, rest) ↦
      subst (λ c. IsId (c ∷ x ∷ y ∷ z ∷ t)) (sym percent)
        (IsId.escape x y ((hexdigit_iff x).0 hx) ((hexdigit_iff y).0 hy)
          (valid-IsId (z ∷ t) rest ends (λ e. cc)))
  | inr (hb, rest) ↦ byte-IsId b hb (valid-IsId (x ∷ y ∷ z ∷ t) rest ends (λ e. cc))
]

-- The tests on bytes are those on characters, since what passes them is ASCII.
pub method_is_valid_iff : (m : Text) → (method_is_valid m ≡ true) ↔ ((m ≢ []) × All IsMethodChar m)
unfolding method_is_valid
method_is_valid_iff [] = (λ h. cc, λ h. absurd (h.0 refl))
method_is_valid_iff (c ∷ m) = (
  λ h.
      let bytes : all is_method_byte (utf8 (c ∷ m)) ≡ true = ground arith in
      let same : utf8 (c ∷ m) ≡ c ∷ m =
        utf8_id (c ∷ m) (utf8-IsAscii_back (c ∷ m) (method_chars-IsAscii (utf8 (c ∷ m)) bytes)) in
      (λ e. cc, (method_chars_iff (c ∷ m)).0 (rw same at bytes)),
  λ (full, chars).
      let valid = (method_chars_iff (c ∷ m)).1 chars in
      rw (utf8_id (c ∷ m) (method_chars-IsAscii (c ∷ m) valid), valid) refl,
)

pub id_is_valid_iff : (i : Text) → (id_is_valid i ≡ true) ↔ IsId i
unfolding id_is_valid
id_is_valid_iff [] = (λ h. cc, λ d. absurd ((IsId-valid d).2 refl))
id_is_valid_iff (c ∷ i) = (
  λ h.
      let bytes : id_chars_are_valid (utf8 (c ∷ i)) ≡ true = ground arith in
      let same : utf8 (c ∷ i) ≡ c ∷ i =
        utf8_id (c ∷ i) (utf8-IsAscii_back (c ∷ i) (id_chars-IsAscii (utf8 (c ∷ i)) bytes)) in
      valid-IsId (c ∷ i) (rw same at bytes) (ground arith) (λ e. cc),
  λ d.
      let (valid, ends, full) = IsId-valid d in
      rw (ends, utf8_id (c ∷ i) (id_chars-IsAscii (c ∷ i) valid), valid) refl,
)
