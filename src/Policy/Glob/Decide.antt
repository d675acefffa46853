-- ===== src/Policy/Glob/Decide.antt =====
-- src/policy/glob.rs: the loop of `matches` ends, and decides whether the text matches.
use pq_ucan.Base.{
  ◌≢◌, ℕ, zero, suc, ◌+◌, ◌*◌, ◌-◌, ◌≤◌, ◌<◌, ◌≡◌, ◌↔◌, refl, List, [], ◌∷◌, Option, none, some,
  drop, length, Text, arith, subst, sym, Bool, true, false, get_elem?, drop-some, drop-none,
  Option-cases, all, ◌==◌, inl, inr, Bool-cases, get_elem?-some, ==_iff,
}
use mathlib.Core.Path.{subst₂}
use pq_ucan.Policy.Glob.{
  Token, literal, any, Backtrack, Round, Pattern, retry, arm, rest_is_any, fuel_for, matches_loop,
  matches, is_any,
}
use pq_ucan.Policy.Glob.Language.{
  Matches, skip, same_inv, any_end, all_any→Matches, Matches→all_any,
}
use pq_ucan.Policy.Glob.Invariant.{Here, Inv, Inv-star, Inv-literal, Inv-retry}

-- The run ended with the right answer to `G`.
abbrev pub Answers : Type 0 → Option Bool → Type 0
Answers L none = ⊥
Answers L (some true) = L
Answers L (some false) = ¬ L

Answers-some : (found : Bool) {L : Type 0} → (found ≡ true) ↔ L → Answers L (some found)
Answers-some true (sound, complete) = sound refl
Answers-some false (sound, complete) = λ l. cc (complete l)

no_tokens : {c : ℕ} {s : Text} → ¬ Matches [] (c ∷ s)
no_tokens m = elim m [ ]

rest_any :
    (tokens : List Token) (t : ℕ) → rest_is_any tokens t ≡ true → all is_any (drop t tokens) ≡ true
unfolding rest_is_any
rest_any tokens t h = ground arith

any_rest :
    (tokens : List Token) (t : ℕ)
    → t ≤ length tokens
    → all is_any (drop t tokens) ≡ true
    → rest_is_any tokens t ≡ true
unfolding rest_is_any
any_rest tokens t h e = ground arith

module _ (G : Type 0) (tokens : List Token) (input : Text) where
  abbrev Good : ℕ → Round → Type 0
  Good fuel next =
      (m s t : ℕ) (back : Backtrack)
      → Inv G tokens input fuel m s t back
      → Answers G (next s t back)

  retry-Answers :
      (fuel m s t : ℕ) (back : Backtrack) (next : Round)
      → Good fuel next
      → Inv G tokens input (suc fuel) m s t back
      → s < length input
      → ¬ Here G tokens input s t
      → Answers G (retry next back)
  unfolding retry
  retry-Answers fuel m s t none next ih i hs stuck = λ g. stuck (i.saved.0 g)
  retry-Answers fuel m s t (some (a, b)) next ih i hs stuck =
      let (c, found) = get_elem?-some input b (omega arith) in
      ih (m - 1) (suc b) (suc a) (some (a, suc b))
        (Inv-retry G tokens input i c (drop-some input b c found).0 hs stuck)

  arm-Answers :
      (fuel m s t c : ℕ) (back : Backtrack) (next : Round) (token : Option Token)
      → Good fuel next
      → Inv G tokens input (suc fuel) m s t back
      → get_elem? tokens t ≡ token
      → get_elem? input s ≡ some c
      → Answers G (arm next token c s t back)
  unfolding arm
  arm-Answers fuel m s t c back next (some any) ih i et es =
      let (e, h) = drop-some tokens t any et in
      ih (length input - s) s (suc t) (some (t, s)) (Inv-star G tokens input i e h)
  arm-Answers fuel m s t c back next (some (literal x)) ih i et es =
      let (e, h) = drop-some tokens t (literal x) et in
      let (f, k) = drop-some input s c es in
      elim (Bool-cases (c == x)) [
        | inl fits ↦
            rw fits (
              ih m (suc s) (suc t) back
                (Inv-literal G tokens input i e f h k ((==_iff c x).0 fits)))
        | inr differs ↦ rw differs (
            retry-Answers fuel m s t back next ih i k
              (λ d. cc ((==_iff c x).1 (same_inv (subst₂ Matches e f d)).0)))
      ]
  arm-Answers fuel m s t c back next none ih i et es =
      let (e, h) = drop-none tokens t et in
      let (f, k) = drop-some input s c es in
      retry-Answers fuel m s t back next ih i k (λ d. no_tokens (subst₂ Matches e f d))

  loop-Answers : (fuel : ℕ) → Good fuel (matches_loop fuel tokens input)
  unfolding matches_loop
  loop-Answers zero m s t back i = absurd (omega arith)
  loop-Answers (suc fuel) m s t back i = elim (Option-cases (get_elem? input s)) [
    | inl ended ↦
        let (f, k) = drop-none input s ended in
        rw (ended, matches_loop)
          (Answers-some (rest_is_any tokens t) (
            λ h. i.now (
                subst (Matches (drop t tokens)) (sym f)
                  (all_any→Matches (drop t tokens) (rest_any tokens t h))),
            λ g.
                any_rest tokens t i.in_tokens
                  (Matches→all_any (any_end (subst (Matches (any ∷ drop t tokens)) f (i.later g)))),
          ))
    | inr (c, found) ↦
        rw (found, matches_loop)
          (arm-Answers fuel m s t c back (matches_loop fuel tokens input) (get_elem? tokens t)
            (loop-Answers fuel) i refl found)
  ]

enough_fuel : (n k : ℕ) → n * (k + 1) + (k - 0) < suc ((n + 1) * (k + 1))
enough_fuel n k = grind arith

-- On every pattern and input the loop ends within its fuel, and answers `true` exactly when the
-- tokens match the whole of the input.
pub matches-Answers :
    (p : Pattern) (input : Text) → Answers (Matches p.tokens input) (matches p input)
unfolding matches
matches-Answers p input =
    loop-Answers (Matches p.tokens input) p.tokens input (fuel_for p input) (length input) 0 0 none
      record {
        now = λ d. d;
        later = skip;
        saved = (λ d. d, omega arith);
        in_tokens = omega arith;
        in_input = omega arith;
        enough = enough_fuel (length input) (length p.tokens);
      }

-- `matches` answers `true` exactly on the inputs that the tokens match, and always answers.
pub matches_iff :
    (p : Pattern) (input : Text)
    → ((matches p input ≡ some true) ↔ Matches p.tokens input) × (matches p input ≢ none)
matches_iff p input = split (matches p input) (matches-Answers p input)
  where
    split :
        (r : Option Bool)
        → Answers (Matches p.tokens input) r
        → ((r ≡ some true) ↔ Matches p.tokens input) × (r ≢ none)
    split none h = absurd h
    split (some true) h = ((λ _. h, λ _. refl), λ e. cc)
    split (some false) h = ((λ e. cc, λ m. absurd (h m)), λ e. cc)
