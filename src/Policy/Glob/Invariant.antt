-- ===== src/Policy/Glob/Invariant.antt =====
-- src/policy/glob.rs: what the loop of `matches` knows at each round.
use pq_ucan.Base.{
  ℕ, zero, suc, ◌+◌, ◌*◌, ◌-◌, ◌≤◌, ◌<◌, ◌≡◌, ◌↔◌, List, ◌∷◌, none, some, drop, length, Text, arith,
  subst, sym,
}
use mathlib.Core.Path.{subst₂}
use native.Mathlib.Nat.{suc-mul}
use pq_ucan.Policy.Glob.{Token, literal, any, Backtrack}
use pq_ucan.Policy.Glob.Language.{
  Matches, same, skip, more, same_inv, any_step, any_twice, any_literal,
}

rounds : (m k d x fuel : ℕ) → x ≤ m → m * (k + 1) + suc d < suc fuel → x * (k + 1) + d < fuel
rounds m k d x fuel h e = grind arith

one_less :
    (m k d e fuel : ℕ) → 1 ≤ m → d ≤ k → m * (k + 1) + e < suc fuel → (m - 1) * (k + 1) + d < fuel
one_less zero k d e fuel hm hd h = absurd (omega arith)
one_less (suc m) k d e fuel hm hd h =
    let one : suc m - 1 ≡ m = omega arith in
    let spread : suc m * (k + 1) ≡ m * (k + 1) + (k + 1) = suc-mul m (k + 1) in rw one (omega arith)

-- `G` is the question that the call asks. Positions count from the start of tokens and input.
module _ (G : Type 0) (tokens : List Token) (input : Text) where
  abbrev pub Here : ℕ → ℕ → Type 0
  Here s t = Matches (drop t tokens) (drop s input)

  abbrev pub Starred : ℕ → ℕ → Type 0
  Starred s t = Matches (any ∷ drop t tokens) (drop s input)

  -- `m` bounds the input that the saved star can still take.
  abbrev pub Saved : ℕ → ℕ → ℕ → Backtrack → Type 0
  Saved m s t none = (G → Here s t) × (length input ≤ m)
  Saved m s t (some (a, b)) =
      (G ↔ Starred b (suc a))
      × (Here b (suc a) → Here s t)
      × (b ≤ s)
      × (suc a ≤ length tokens)
      × (length input ≤ m + b)

  pub record Inv (fuel m s t : ℕ) (back : Backtrack) : Type 0 where
    pub now : Here s t → G
    pub later : G → Starred s t
    pub saved : Saved m s t back
    pub in_tokens : t ≤ length tokens
    pub in_input : s ≤ length input
    pub enough : m * (length tokens + 1) + (length tokens - t) < fuel

  left-le : (m s t : ℕ) (back : Backtrack) → Saved m s t back → length input - s ≤ m
  left-le m s t none h = omega arith
  left-le m s t (some (a, b)) h = omega arith

  -- A star opens a new retry position.
  pub Inv-star :
      {fuel m s t : ℕ} {back : Backtrack}
      → Inv (suc fuel) m s t back
      → drop t tokens ≡ any ∷ drop (suc t) tokens
      → t < length tokens
      → Inv fuel (length input - s) s (suc t) (some (t, s))
  Inv-star {fuel} {m} {s} {t} {back} i e h = record {
    now = λ d. i.now (subst (λ p. Matches p (drop s input)) (sym e) (skip d));
    later = forward;
    saved = (
      (forward, λ d. i.now (subst (λ p. Matches p (drop s input)) (sym e) d)),
      λ d. d,
      omega arith,
      h,
      omega arith,
    );
    in_tokens = h;
    in_input = i.in_input;
    enough =
        rounds m (length tokens) (length tokens - suc t) (length input - s) fuel
          (left-le m s t back i.saved) (omega arith);
  }
    where
      forward : G → Starred s (suc t)
      forward g = any_twice (subst (λ p. Matches (any ∷ p) (drop s input)) e (i.later g))

  Saved-literal :
      (m s t x c : ℕ) (back : Backtrack)
      → drop t tokens ≡ literal x ∷ drop (suc t) tokens
      → drop s input ≡ c ∷ drop (suc s) input
      → Saved m s t back
      → Saved m (suc s) (suc t) back
  Saved-literal m s t x c none et es (go, fits) = (λ g. (same_inv (moved (go g))).1, fits)
    where
      moved : Here s t → Matches (literal x ∷ drop (suc t) tokens) (c ∷ drop (suc s) input)
      moved d = subst₂ Matches et es d
  Saved-literal m s t x c (some (a, b)) et es (ask, down, before, inside, fits) =
      (ask, λ d. (same_inv (moved (down d))).1, omega arith, inside, fits)
    where
      moved : Here s t → Matches (literal x ∷ drop (suc t) tokens) (c ∷ drop (suc s) input)
      moved d = subst₂ Matches et es d

  -- A literal that fits moves both positions.
  pub Inv-literal :
      {fuel m s t x c : ℕ} {back : Backtrack}
      → Inv (suc fuel) m s t back
      → drop t tokens ≡ literal x ∷ drop (suc t) tokens
      → drop s input ≡ c ∷ drop (suc s) input
      → t < length tokens
      → s < length input
      → c ≡ x
      → Inv fuel m (suc s) (suc t) back
  Inv-literal {fuel} {m} {s} {t} {x} {c} {back} i et es ht hs fits = record {
    now = λ d. i.now (subst₂ Matches (sym et) (sym es) (same fits d));
    later =
        λ g. any_literal (drop (suc s) input) (subst₂ (λ p. Matches (any ∷ p)) et es (i.later g));
    saved = Saved-literal m s t x c back et es i.saved;
    in_tokens = ht;
    in_input = hs;
    enough = omega arith;
  }

  -- A mismatch makes the saved star take one more character.
  pub Inv-retry :
      {fuel m s t a b : ℕ}
      → Inv (suc fuel) m s t (some (a, b))
      → (c : ℕ) → drop b input ≡ c ∷ drop (suc b) input
      → s < length input
      → ¬ Here s t
      → Inv fuel (m - 1) (suc b) (suc a) (some (a, suc b))
  Inv-retry {fuel} {m} {s} {t} {a} {b} i c eb hs stuck =
      let (ask, down, before, inside, fits) = i.saved in
      record {
        now = λ d. ask.1 (back (skip d));
        later = λ g. onward (ask.0 g);
        saved = (
          (λ g. onward (ask.0 g), λ d. ask.1 (back d)),
          λ d. d,
          omega arith,
          inside,
          omega arith,
        );
        in_tokens = inside;
        in_input = omega arith;
        enough = budget before fits;
      }
    where
      back : Starred (suc b) (suc a) → Starred b (suc a)
      back d = subst (Matches (any ∷ drop (suc a) tokens)) (sym eb) (more d)

      no_here : ¬ Matches (drop (suc a) tokens) (c ∷ drop (suc b) input)
      no_here d = stuck (i.saved.1 (subst (Matches (drop (suc a) tokens)) (sym eb) d))

      onward : Starred b (suc a) → Starred (suc b) (suc a)
      onward d = any_step (subst (Matches (any ∷ drop (suc a) tokens)) eb d) no_here

      budget :
          b ≤ s
          → length input ≤ m + b
          → (m - 1) * (length tokens + 1) + (length tokens - suc a) < fuel
      budget before fits =
          one_less m (length tokens) (length tokens - suc a) (length tokens - t) fuel (omega arith)
            (omega arith) i.enough
