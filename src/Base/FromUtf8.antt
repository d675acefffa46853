-- ===== src/Base/FromUtf8.antt =====
-- `core::str::from_utf8`: the strict decoder of UTF-8, against `utf8`.
use Prim.Native.Nat.{ℕ, zero, suc, ◌+◌, ◌-◌, ◌*◌, ◌≤◌, ◌<◌}
use mathlib.Core.Path.{◌≡◌, refl, sym, ap, subst, ◌∙◌}
use mathlib.Core.Logic.{◌⊎◌, inl, inr}
use mathlib.Core.Bool.{Bool, ◌&&◌, ◌||◌}
use mathlib.Core.Option.{Option, none, some}
use mathlib.Core.List.{List, [], ◌∷◌, ◌++◌}
use native.Mathlib.Omega.{arith}
use pq_ucan.Base.Tests.{ltb, leb, if◌then◌else◌, Option-cases, Bool-cases}
use pq_ucan.Base.Lists.{length, All, length-append}
use pq_ucan.Base.Utf8.{utf8_char, utf8}

-- A `char`: no surrogate, and within 21 bits.
abbrev pub IsScalar : ℕ → Type 0
IsScalar c = (c < 0xd800) ⊎ ((0xe000 ≤ c) × (c ≤ 0x10ffff))

abbrev pub is_continuation : ℕ → Bool
is_continuation b = leb 0x80 b && ltb b 0xc0

abbrev two_bytes : ℕ → List ℕ → Option (ℕ × List ℕ)
two_bytes a [] = none
two_bytes a (b ∷ bs) =
    let c = (a - 0xc0) * 64 + (b - 0x80) in
    if leb 0xc0 a && is_continuation b && leb 0x80 c then some (c, bs) else none

abbrev three_bytes : ℕ → List ℕ → Option (ℕ × List ℕ)
three_bytes a [] = none
three_bytes a (b ∷ []) = none
three_bytes a (b ∷ d ∷ bs) =
    let c = (a - 0xe0) * 4096 + (b - 0x80) * 64 + (d - 0x80) in
    if is_continuation b && is_continuation d && leb 0x800 c && (ltb c 0xd800 || leb 0xe000 c)
    then some (c, bs)
    else none

abbrev four_bytes : ℕ → List ℕ → Option (ℕ × List ℕ)
four_bytes a [] = none
four_bytes a (b ∷ []) = none
four_bytes a (b ∷ d ∷ []) = none
four_bytes a (b ∷ d ∷ e ∷ bs) =
    let c = (a - 0xf0) * 262144 + (b - 0x80) * 4096 + (d - 0x80) * 64 + (e - 0x80) in
    if is_continuation b
      && is_continuation d
      && is_continuation e
      && leb 0x10000 c
      && leb c 0x10ffff
    then some (c, bs)
    else none

-- The first character, and what follows it.
unfoldable pub char_at : List ℕ → Option (ℕ × List ℕ)
char_at [] = none
char_at (a ∷ bs) =
    if ltb a 0x80
    then some (a, bs)
    else if ltb a 0xe0
    then two_bytes a bs
    else if ltb a 0xf0
    then three_bytes a bs
    else four_bytes a bs

abbrev prepend : ℕ → Option (List ℕ) → Option (List ℕ)
prepend c none = none
prepend c (some cs) = some (c ∷ cs)

abbrev continue : (List ℕ → Option (List ℕ)) → Option (ℕ × List ℕ) → Option (List ℕ)
continue read none = none
continue read (some (c, rest)) = prepend c (read rest)

-- Each character takes a byte at least, so a unit of fuel for each byte is enough.
unfoldable pub characters : ℕ → List ℕ → Option (List ℕ)
unfolding char_at
characters fuel [] = some []
characters zero (b ∷ bs) = none
characters (suc fuel) (b ∷ bs) = continue (characters fuel) (char_at (b ∷ bs))

unfoldable pub from_utf8 : List ℕ → Option (List ℕ)
unfolding characters
from_utf8 bytes = characters (length bytes) bytes

pub char_at-utf8_char :
    (c : ℕ) (rest : List ℕ) → IsScalar c → char_at (utf8_char c ++ rest) ≡ some (c, rest)
unfolding char_at utf8_char
char_at-utf8_char c rest h = ground arith

-- The bytes are those of a character, with the rest behind them.
abbrev Begins : List ℕ → Option (ℕ × List ℕ) → Type 0
Begins bytes none = Unit {0}
Begins bytes (some (c, rest)) = (bytes ≡ utf8_char c ++ rest) × IsScalar c

two_bytes-Begins : (a : ℕ) (bs : List ℕ) → a < 0xe0 → Begins (a ∷ bs) (two_bytes a bs)
unfolding utf8_char
two_bytes-Begins a [] h = tt
two_bytes-Begins a (b ∷ bs) h = ground arith

three_bytes-Begins :
    (a : ℕ) (bs : List ℕ) → 0xe0 ≤ a → a < 0xf0 → Begins (a ∷ bs) (three_bytes a bs)
unfolding utf8_char
three_bytes-Begins a [] h k = tt
three_bytes-Begins a (b ∷ []) h k = tt
three_bytes-Begins a (b ∷ d ∷ bs) h k = ground arith

four_bytes-Begins : (a : ℕ) (bs : List ℕ) → 0xf0 ≤ a → Begins (a ∷ bs) (four_bytes a bs)
unfolding utf8_char
four_bytes-Begins a [] h = tt
four_bytes-Begins a (b ∷ []) h = tt
four_bytes-Begins a (b ∷ d ∷ []) h = tt
four_bytes-Begins a (b ∷ d ∷ e ∷ bs) h = ground arith

char_at-Begins : (bytes : List ℕ) → Begins bytes (char_at bytes)
unfolding char_at utf8_char
char_at-Begins [] = tt
char_at-Begins (a ∷ bs) = elim (Bool-cases (ltb a 0x80)) [
  | inl ascii ↦ rw ascii (ground arith, ground arith)
  | inr long ↦ elim (Bool-cases (ltb a 0xe0)) [
    | inl two ↦ rw (long, two) (two_bytes-Begins a bs (ground arith))
    | inr more ↦ elim (Bool-cases (ltb a 0xf0)) [
      | inl three ↦ rw (long, more, three) (three_bytes-Begins a bs (ground arith) (ground arith))
      | inr four ↦ rw (long, more, four) (four_bytes-Begins a bs (ground arith))
    ]
  ]
]

begins :
    (bytes : List ℕ) (c : ℕ) (rest : List ℕ)
    → char_at bytes ≡ some (c, rest)
    → (bytes ≡ utf8_char c ++ rest) × IsScalar c
begins bytes c rest found = subst (Begins bytes) found (char_at-Begins bytes)

utf8_char_pos : (c : ℕ) → 1 ≤ length (utf8_char c)
unfolding utf8_char
utf8_char_pos c = ground arith

characters_step :
    (fuel : ℕ) (bytes rest t : List ℕ) (c : ℕ)
    → char_at bytes ≡ some (c, rest)
    → characters fuel rest ≡ some t
    → characters (suc fuel) bytes ≡ some (c ∷ t)
unfolding characters
characters_step fuel [] rest t c h k = unfold char_at in cc
characters_step fuel (b ∷ bs) rest t c h k = ap (continue (characters fuel)) h ∙ ap (prepend c) k

-- `from_utf8` reads exactly the encodings of scalar values.
characters-utf8 :
    (fuel : ℕ) (t : List ℕ)
    → All IsScalar t
    → length (utf8 t) ≤ fuel
    → characters fuel (utf8 t) ≡ some t
characters-utf8 fuel [] h k = unfold characters utf8 in refl
characters-utf8 zero (c ∷ t) h k =
    absurd (unfold utf8 in omega (arith, length-append (utf8_char c) (utf8 t), utf8_char_pos c))
characters-utf8 (suc fuel) (c ∷ t) h k =
    characters_step fuel (utf8 (c ∷ t)) (utf8 t) t c
      (unfold utf8 in char_at-utf8_char c (utf8 t) h.0)
      (characters-utf8 fuel t h.1
        (unfold utf8 in omega (arith, length-append (utf8_char c) (utf8 t), utf8_char_pos c)))

pub from_utf8-utf8 : (t : List ℕ) → All IsScalar t → from_utf8 (utf8 t) ≡ some t
unfolding from_utf8
from_utf8-utf8 t h = characters-utf8 (length (utf8 t)) t h (omega arith)

characters-eq-some :
    (fuel : ℕ) (bytes t : List ℕ)
    → characters fuel bytes ≡ some t
    → (utf8 t ≡ bytes) × All IsScalar t
unfolding characters utf8
characters-eq-some fuel [] [] h = (refl, tt)
characters-eq-some fuel [] (c ∷ t) h = cc
characters-eq-some zero (b ∷ bs) t h = cc
characters-eq-some (suc fuel) (b ∷ bs) t h = elim (Option-cases (char_at (b ∷ bs))) [
  | inl missing ↦ cc (rw missing at h)
  | inr ((c, rest), found) ↦ elim (Option-cases (characters fuel rest)) [
    | inl stuck ↦ cc (ap (continue (characters fuel)) found, ap (prepend c) stuck)
    | inr (cs, good) ↦
        let (same, scalar) = begins (b ∷ bs) c rest found in
        let (tail, scalars) = characters-eq-some fuel rest cs good in
        let all : t ≡ c ∷ cs = cc (ap (continue (characters fuel)) found, ap (prepend c) good) in
        rw all (rw tail (sym same), (scalar, scalars))
  ]
]

pub from_utf8-eq-some :
    (bytes t : List ℕ) → from_utf8 bytes ≡ some t → (utf8 t ≡ bytes) × All IsScalar t
unfolding from_utf8
from_utf8-eq-some bytes t h = characters-eq-some (length bytes) bytes t h
