-- ===== src/Policy/Selector/Total.antt =====
-- src/policy/selector.rs: `parse` ends on every text, and keeps the text that it read.
use pq_ucan.Base.{
  ℕ, zero, suc, ◌+◌, ◌<◌, ◌≡◌, inl, inr, refl, Bool, true, false, ◌==◌, List, [], ◌∷◌, some, length,
  drop-some, get_elem?, Text, arith, Option-cases, Bool-cases, ok,
}
use pq_ucan.Policy.Selector.{Segment, Selector}
use pq_ucan.Policy.Selector.Parse.{
  dangling_optional, bracket, parse_char, parse_loop, parse, finish, is_ident, is_ident_start,
  ident_at, bracket_arm, optional_arm, mark_last,
}
use pq_ucan.Policy.Selector.Scan.{
  Completes, Beyond, Completes-bind, Completes-ok_or, bracket-Completes,
}

abbrev Onward : ℕ → List Segment × Bool × ℕ → Type 0
Onward i r = i < r.2

bracket_arm-Completes :
    (chars : Text) (segments : List Segment) (i : ℕ)
    → Completes (Onward i) (bracket_arm chars segments i)
unfolding bracket_arm
bracket_arm-Completes chars segments i =
    Completes-bind (Beyond (i + 1)) (Onward i) (bracket chars (i + 1)) _
      (bracket-Completes chars (i + 1)) (λ (kind, j) onward. omega arith)

optional_arm-Completes :
    (segments : List Segment) (dot_pending : Bool) (i : ℕ)
    → Completes (Onward i) (optional_arm segments dot_pending i)
optional_arm-Completes segments true i = tt
optional_arm-Completes segments false i =
    Completes-ok_or (Onward i) (mark_last segments) dangling_optional _ tt (λ marked. omega arith)

start_is_ident : (c : ℕ) → is_ident_start c ≡ true → is_ident c ≡ true
start_is_ident c h = ground arith

-- An identifier's first character is one of its characters, so its length is not 0.
ident_pos :
    (chars : Text) (c i : ℕ)
    → get_elem? chars i ≡ some c
    → is_ident_start c ≡ true
    → 0 < length (ident_at chars i)
ident_pos chars c i found start =
    rw ((drop-some chars i c found).0, start_is_ident c start) (omega arith)

parse_char-Completes :
    (chars : Text) (segments : List Segment) (dot_pending : Bool) (c i : ℕ)
    → get_elem? chars i ≡ some c
    → Completes (Onward i) (parse_char chars segments dot_pending c i)
unfolding parse_char
parse_char-Completes chars segments dot_pending c i found = ground (
  arith,
  bracket_arm-Completes chars segments i,
  optional_arm-Completes segments dot_pending i,
  ident_pos chars c i found,
)

finish-Completes :
    (segments : List Segment) (dot_pending : Bool)
    → Completes (λ _. Unit {0}) (finish segments dot_pending)
finish-Completes segments dot_pending = ground arith

parse_loop-Completes :
    (fuel : ℕ) (chars : Text) (segments : List Segment) (dot_pending : Bool) (i : ℕ)
    → length chars < fuel + i
    → 0 < fuel
    → Completes (λ _. Unit {0}) (parse_loop fuel chars segments dot_pending i)
unfolding parse_loop
parse_loop-Completes zero chars segments dot_pending i h k = absurd (omega arith)
parse_loop-Completes (suc fuel) chars segments dot_pending i h k =
    elim (Option-cases (get_elem? chars i)) [
      | inl ended ↦ rw (ended, parse_loop) (finish-Completes segments dot_pending)
      | inr (c, found) ↦
          rw (found, parse_loop)
            (Completes-bind (Onward i) (λ _. Unit {0}) (parse_char chars segments dot_pending c i) _
              (parse_char-Completes chars segments dot_pending c i found)
              (λ (segments', dot, j) onward.
                parse_loop-Completes fuel chars segments' dot j (omega arith)
                  (omega (arith, (drop-some chars i c found).1))))
    ]

-- On every text `parse` ends within its fuel: it returns a selector that keeps the text as it was
-- written, or one of the errors that the source can return.
pub parse-Completes : (text : Text) → Completes (λ s. s.text ≡ text) (parse text)
unfolding parse
parse-Completes [] = tt
parse-Completes (c ∷ chars) = elim (Bool-cases (c == b'.')) [
  | inl dot ↦ rw dot (
      Completes-bind (λ _. Unit {0}) (λ s. s.text ≡ c ∷ chars)
        (parse_loop (suc (length (c ∷ chars))) (c ∷ chars) [] true 1) _
        (parse_loop-Completes (suc (length (c ∷ chars))) (c ∷ chars) [] true 1 (omega arith)
          (omega arith))
        (λ segments _. refl))
  | inr other ↦ rw other tt
]

-- An accepted text is the text of the selector.
pub parse-text : (text : Text) (s : Selector) → parse text ≡ ok s → s.text ≡ text
parse-text text s h = rw h at (parse-Completes text)
