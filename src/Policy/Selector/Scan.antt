-- ===== src/Policy/Selector/Scan.antt =====
-- src/policy/selector.rs: the inside of brackets is read to its end, and reading moves on.
use pq_ucan.Base.{
  ℕ, zero, suc, ◌+◌, ◌≤◌, ◌<◌, inl, inr, ◌==◌, ℤ, [], ◌∷◌, ◌++◌, Option, none, some, length,
  drop-some, get_elem?, Text, arith, Option-cases, Bool-cases, Result, ok, err, ok_or, ◌>>=◌,
}
use pq_ucan.Policy.Selector.{Kind, get_range, key, index, slice}
use pq_ucan.Policy.Selector.Parse.{
  SelectorError, out_of_fuel, bad_index, bad_escape, integer, quoted_loop, quoted, quoted_char,
  escape, unicode_escape, closed, index_or_slice, behind_first, quoted_key, bracket, is_at,
  from_str_radix_16, char_from_u32,
}

-- The result is an error of the source, or a value of which `P` holds.
abbrev pub Completes : {A : Type 0} → (A → Type 0) → Result SelectorError A → Type 0
Completes P (ok a) = P a
Completes P (err out_of_fuel) = ⊥
Completes P (err _) = Unit

-- A position behind `i`, with something read.
abbrev pub Beyond : {A : Type 0} → ℕ → A × ℕ → Type 0
Beyond i r = i < r.1

pub Completes-bind :
    {A B : Type 0} (Read : A → Type 0) (Done : B → Type 0) (first : Result SelectorError A)
    (next : A → Result SelectorError B)
    → Completes Read first
    → ((x : A) → Read x → Completes Done (next x))
    → Completes Done (first >>= next)
Completes-bind Read Done (err out_of_fuel) next stuck later = stuck
Completes-bind Read Done (err SelectorError.empty) next stuck later = tt
Completes-bind Read Done (err _) next stuck later = tt
Completes-bind Read Done (ok x) next read later = later x read

pub Completes-ok_or :
    {A B : Type 0} (Done : B → Type 0) (found : Option A) (missing : SelectorError)
    (next : A → Result SelectorError B)
    → Completes Done (err missing)
    → ((x : A) → Completes Done (next x))
    → Completes Done (ok_or found missing >>= next)
Completes-ok_or Done none missing next stuck later = stuck
Completes-ok_or Done (some x) missing next stuck later = later x

integer-Completes : (chars : Text) (i : ℕ) → Completes (λ r. i ≤ r.1) (integer chars i)
unfolding integer
integer-Completes chars i = ground arith

unicode_escape-Completes :
    (chars : Text) (i : ℕ) → Completes (λ r. i ≤ r.1) (unicode_escape chars i)
unfolding unicode_escape
unicode_escape-Completes chars i =
    Completes-ok_or (λ r. i ≤ r.1) (get_range chars (i + 1) (i + 5)) bad_escape _ tt
      (λ hex.
        Completes-ok_or (λ r. i ≤ r.1) (from_str_radix_16 hex) bad_escape _ tt
          (λ n.
            Completes-ok_or (λ r. i ≤ r.1) (char_from_u32 n) bad_escape _ tt (λ c. omega arith)))

escape-Completes : (chars : Text) (i : ℕ) → Completes (λ r. i ≤ r.1) (escape chars i)
unfolding escape
escape-Completes chars i = ground (arith, unicode_escape-Completes chars i)

quoted_char-Completes : (chars : Text) (c i : ℕ) → Completes (Beyond i) (quoted_char chars c i)
unfolding quoted_char
quoted_char-Completes chars c i = ground (arith, escape-Completes chars (i + 1))

Completes-later :
    {A : Type 0} (i j : ℕ) (r : Result SelectorError (A × ℕ))
    → i < j
    → Completes (Beyond j) r
    → Completes (Beyond i) r
Completes-later i j (ok a) h k = omega arith
Completes-later i j (err out_of_fuel) h k = k
Completes-later i j (err SelectorError.empty) h k = tt
Completes-later i j (err _) h k = tt

quoted_loop-Completes :
    (fuel : ℕ) (chars out : Text) (i : ℕ)
    → length chars < fuel + i
    → 0 < fuel
    → Completes (Beyond i) (quoted_loop fuel chars out i)
unfolding quoted_loop
quoted_loop-Completes zero chars out i h k = absurd (omega arith)
quoted_loop-Completes (suc fuel) chars out i h k = elim (Option-cases (get_elem? chars i)) [
  | inl ended ↦ rw (ended, quoted_loop) tt
  | inr (c, found) ↦
      rw (found, quoted_loop)
        (elim (Bool-cases (c == b'"')) [
          | inl quote ↦ rw quote (omega arith)
          | inr other ↦ rw other (
              Completes-bind (Beyond i) (Beyond i) (quoted_char chars c i) _
                (quoted_char-Completes chars c i)
                (λ (e, j) onward.
                  Completes-later i j (quoted_loop fuel chars (out ++ e ∷ []) j) onward (
                    quoted_loop-Completes fuel chars (out ++ e ∷ []) j (omega arith)
                      (omega (arith, (drop-some chars i c found).1)))))
        ])
]

quoted-Completes : (chars : Text) (i : ℕ) → Completes (Beyond i) (quoted chars i)
unfolding quoted
quoted-Completes chars i =
    quoted_loop-Completes (suc (length chars)) chars [] i (omega arith) (omega arith)

closed-Completes : (chars : Text) (i : ℕ) (kind : Kind) → Completes (Beyond i) (closed chars i kind)
closed-Completes chars i kind = ground arith

Completes-weaken :
    {A : Type 0} (i j : ℕ) (r : Result SelectorError (A × ℕ))
    → i ≤ j
    → Completes (Beyond j) r
    → Completes (Beyond i) r
Completes-weaken i j (ok a) h k = omega arith
Completes-weaken i j (err out_of_fuel) h k = k
Completes-weaken i j (err SelectorError.empty) h k = tt
Completes-weaken i j (err _) h k = tt

behind_first-Completes :
    (chars : Text) (first : Option ℤ) (i : ℕ) → Completes (Beyond i) (behind_first chars first i)
unfolding behind_first
behind_first-Completes chars first i = elim (Bool-cases (is_at chars i b':')) [
  | inl colon ↦ rw colon (
      Completes-bind (λ r. i + 1 ≤ r.1) (Beyond i) (integer chars (i + 1)) _
        (integer-Completes chars (i + 1))
        (λ (second, j) onward.
          Completes-weaken i j (closed chars j (slice first second)) (omega arith)
            (closed-Completes chars j (slice first second))))
  | inr other ↦
      rw other
        (Completes-ok_or (Beyond i) first bad_index _ tt (λ n. closed-Completes chars i (index n)))
]

index_or_slice-Completes : (chars : Text) (i : ℕ) → Completes (Beyond i) (index_or_slice chars i)
unfolding index_or_slice
index_or_slice-Completes chars i =
    Completes-bind (λ r. i ≤ r.1) (Beyond i) (integer chars i) _ (integer-Completes chars i)
      (λ (first, j) onward.
        Completes-weaken i j (behind_first chars first j) onward
          (behind_first-Completes chars first j))

quoted_key-Completes : (chars : Text) (i : ℕ) → Completes (Beyond i) (quoted_key chars i)
unfolding quoted_key
quoted_key-Completes chars i =
    Completes-bind (Beyond (i + 1)) (Beyond i) (quoted chars (i + 1)) _
      (quoted-Completes chars (i + 1))
      (λ (k, j) onward.
        Completes-weaken i j (closed chars j (key k)) (omega arith)
          (closed-Completes chars j (key k)))

pub bracket-Completes : (chars : Text) (i : ℕ) → Completes (Beyond i) (bracket chars i)
unfolding bracket
bracket-Completes chars i =
    ground (arith, quoted_key-Completes chars i, index_or_slice-Completes chars i)
