-- ===== src/Base/Lists.antt =====
-- Lists measured and indexed by native numbers, Boolean quantifiers over lists, and the equality
-- test of code point or byte lists.
use Prim.Native.Nat.{ℕ, zero, suc, ◌+◌, ◌-◌, ◌≤◌, ◌<◌}
use mathlib.Core.Path.{◌≡◌, refl}
use mathlib.Core.Logic.{◌↔◌, inl, inr}
use mathlib.Core.Bool.{Bool, true, false, ◌&&◌, ◌||◌}
use mathlib.Core.List.{List, [], ◌∷◌, ◌++◌}
use mathlib.Core.Option.{Option, none, some}
use native.Mathlib.Omega.{arith}
use pq_ucan.Base.Tests.{◌==◌, Option-cases, if◌then◌else◌}

module _ {ℓ} {A : Type ℓ} where
  abbrev pub length : List A → ℕ
  length [] = 0
  length (x ∷ xs) = suc (length xs)

  abbrev pub get_elem? : List A → ℕ → Option A
  get_elem? [] i = none
  get_elem? (x ∷ xs) zero = some x
  get_elem? (x ∷ xs) (suc i) = get_elem? xs i

  abbrev pub take : ℕ → List A → List A
  take zero xs = []
  take (suc n) [] = []
  take (suc n) (x ∷ xs) = x ∷ take n xs

  abbrev pub drop : ℕ → List A → List A
  drop zero xs = xs
  drop (suc n) [] = []
  drop (suc n) (x ∷ xs) = drop n xs

  abbrev pub last? : List A → Option A
  last? [] = none
  last? (x ∷ []) = some x
  last? (x ∷ y ∷ xs) = last? (y ∷ xs)

  -- `iter().all` and `iter().any`.
  abbrev pub all : (A → Bool) → List A → Bool
  all p [] = true
  all p (x ∷ xs) = p x && all p xs

  abbrev pub any : (A → Bool) → List A → Bool
  any p [] = false
  any p (x ∷ xs) = p x || any p xs

  -- `iter().position`, counted from `i`.
  abbrev pub position_from : ℕ → (A → Bool) → List A → Option ℕ
  position_from i p [] = none
  position_from i p (x ∷ xs) = if p x then some i else position_from (suc i) p xs

  -- The longest prefix whose elements pass.
  abbrev pub take_while : (A → Bool) → List A → List A
  take_while p [] = []
  take_while p (x ∷ xs) = if p x then x ∷ take_while p xs else []

  abbrev pub All {κ} : (A → Type κ) → List A → Type κ
  All P [] = Unit {κ}
  All P (x ∷ xs) = P x × All P xs

  pub length-append : (xs ys : List A) → length (xs ++ ys) ≡ length xs + length ys
  length-append [] ys = omega arith
  length-append (x ∷ xs) ys = omega (arith, length-append xs ys)

  pub length-drop : (n : ℕ) (xs : List A) → length (drop n xs) ≡ length xs - n
  length-drop zero xs = omega arith
  length-drop (suc n) [] = omega arith
  length-drop (suc n) (x ∷ xs) = omega (arith, length-drop n xs)

  pub length-take_le : (n : ℕ) (xs : List A) → n ≤ length xs → length (take n xs) ≡ n
  length-take_le zero xs h = refl
  length-take_le (suc n) [] h = absurd (omega arith)
  length-take_le (suc n) (x ∷ xs) h = omega (arith, length-take_le n xs (omega arith))

  pub get_elem?-some : (xs : List A) (i : ℕ) → i < length xs → (a : A) × (get_elem? xs i ≡ some a)
  get_elem?-some [] i h = absurd (omega arith)
  get_elem?-some (x ∷ xs) zero h = (x, refl)
  get_elem?-some (x ∷ xs) (suc i) h = get_elem?-some xs i (omega arith)

  pub all_iff : (p : A → Bool) (xs : List A) → (all p xs ≡ true) ↔ All (λ x. p x ≡ true) xs
  all_iff p [] = (λ _. tt, λ _. refl)
  all_iff p (x ∷ xs) = ground (arith, all_iff p xs)

-- Equality of code point or byte lists.
abbrev pub text_eq : List ℕ → List ℕ → Bool
text_eq [] [] = true
text_eq [] (y ∷ ys) = false
text_eq (x ∷ xs) [] = false
text_eq (x ∷ xs) (y ∷ ys) = x == y && text_eq xs ys

pub text_eq→eq : (xs ys : List ℕ) → text_eq xs ys ≡ true → xs ≡ ys
text_eq→eq [] [] h = refl
text_eq→eq [] (y ∷ ys) h = cc
text_eq→eq (x ∷ xs) [] h = cc
text_eq→eq (x ∷ xs) (y ∷ ys) h = ground (arith, text_eq→eq xs ys)

pub text_eq_refl : (xs : List ℕ) → text_eq xs xs ≡ true
text_eq_refl [] = refl
text_eq_refl (x ∷ xs) = ground (arith, text_eq_refl xs)

pub text_eq_iff : (xs ys : List ℕ) → (text_eq xs ys ≡ true) ↔ (xs ≡ ys)
text_eq_iff xs ys = (text_eq→eq xs ys, λ e. rw e (text_eq_refl ys))

-- `str::strip_prefix`.
abbrev pub strip_prefix? : List ℕ → List ℕ → Option (List ℕ)
strip_prefix? [] ys = some ys
strip_prefix? (x ∷ xs) [] = none
strip_prefix? (x ∷ xs) (y ∷ ys) = if x == y then strip_prefix? xs ys else none

pub strip_prefix?-some : (xs ys rest : List ℕ) → strip_prefix? xs ys ≡ some rest → ys ≡ xs ++ rest
strip_prefix?-some [] ys rest h = ground arith
strip_prefix?-some (x ∷ xs) [] rest h = cc
strip_prefix?-some (x ∷ xs) (y ∷ ys) rest h = ground (arith, strip_prefix?-some xs ys rest)

pub strip_prefix?-append : (xs rest : List ℕ) → strip_prefix? xs (xs ++ rest) ≡ some rest
strip_prefix?-append [] rest = refl
strip_prefix?-append (x ∷ xs) rest = ground (arith, strip_prefix?-append xs rest)

-- `str::split_once`, at the first occurrence of a `char`.
abbrev pub split_once : ℕ → List ℕ → Option (List ℕ × List ℕ)
split_once c [] = none
split_once c (x ∷ xs) =
    let rest = split_once c xs in
    if x == c then some ([], xs) else elim rest [ none ↦ none | some (a, b) ↦ some (x ∷ a, b) ]

pub split_once-some :
    (c : ℕ) (xs a b : List ℕ)
    → split_once c xs ≡ some (a, b)
    → (xs ≡ a ++ c ∷ b) × All (λ x. (x == c) ≡ false) a
split_once-some c [] a b h = cc
split_once-some c (x ∷ xs) a b h = elim (Option-cases (split_once c xs)) [
  | inl missing ↦ ground arith
  | inr ((front, back), found) ↦ ground (arith, split_once-some c xs front back found)
]

pub split_once-append :
    (c : ℕ) (a b : List ℕ) → All (λ x. (x == c) ≡ false) a → split_once c (a ++ c ∷ b) ≡ some (a, b)
split_once-append c [] b h = ground arith
split_once-append c (x ∷ a) b h = ground (arith, split_once-append c a b h.1)

module _ {ℓ} {A : Type ℓ} where
  pub take_while-append :
      (p : A → Bool) (a b : List A)
      → All (λ x. p x ≡ true) a
      → take_while p (a ++ b) ≡ a ++ take_while p b
  take_while-append p [] b h = refl
  take_while-append p (x ∷ a) b h = ground (arith, take_while-append p a b h.1)

  pub take_while-All : (p : A → Bool) (a : List A) → All (λ x. p x ≡ true) (take_while p a)
  take_while-All p [] = tt
  take_while-All p (x ∷ a) = ground (arith, take_while-All p a)

  pub take_while-id : (p : A → Bool) (a : List A) → All (λ x. p x ≡ true) a → take_while p a ≡ a
  take_while-id p [] h = refl
  take_while-id p (x ∷ a) h = ground (arith, take_while-id p a h.1)

module _ {ℓ} {A : Type ℓ} where
  pub drop-some :
      (xs : List A) (i : ℕ) (a : A)
      → get_elem? xs i ≡ some a
      → (drop i xs ≡ a ∷ drop (suc i) xs) × (i < length xs)
  drop-some [] i a h = cc
  drop-some (x ∷ xs) zero a h = (ground arith, omega arith)
  drop-some (x ∷ xs) (suc i) a h = let (e, k) = drop-some xs i a h in (e, omega arith)

  pub drop-none : (xs : List A) (i : ℕ) → get_elem? xs i ≡ none → (drop i xs ≡ []) × (length xs ≤ i)
  drop-none [] zero h = (refl, omega arith)
  drop-none [] (suc i) h = (refl, omega arith)
  drop-none (x ∷ xs) zero h = cc
  drop-none (x ∷ xs) (suc i) h = let (e, k) = drop-none xs i h in (e, omega arith)
