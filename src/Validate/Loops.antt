-- ===== src/Validate/Loops.antt =====
-- The loops of src/validate.rs: `for (i, x) in xs.iter().enumerate() { f(i, x)?; }`, and collecting
-- results.
use pq_ucan.Base.{
  ℕ, suc, ◌≡◌, ◌↔◌, refl, List, [], ◌∷◌, Option, some, Result, ok, ◌>>=◌, ◌>>◌, >>=-eq-ok, then_iff,
  subst, ok-injective, ok_or, ok_or-eq-ok, All,
}

module _ {A : Type 0} {E : Type 0} where
  abbrev pub for_each : ℕ → (ℕ → A → Result E (Unit {0})) → List A → Result E (Unit {0})
  for_each i f [] = ok tt
  for_each i f (x ∷ xs) = f i x >> for_each (suc i) f xs

  -- `f` succeeds on every element.
  abbrev pub AllPass : ℕ → (ℕ → A → Result E (Unit {0})) → List A → Type 0
  AllPass i f [] = Unit
  AllPass i f (x ∷ xs) = (f i x ≡ ok tt) × AllPass (suc i) f xs

  pub for_each_iff :
      (i : ℕ) (f : ℕ → A → Result E (Unit {0})) (xs : List A)
      → (for_each i f xs ≡ ok tt) ↔ AllPass i f xs
  for_each_iff i f [] = (λ _. tt, λ _. refl)
  for_each_iff i f (x ∷ xs) =
      let step = then_iff (f i x) (for_each (suc i) f xs) in
      let rest = for_each_iff (suc i) f xs in
      (λ h. ((step.0 h).0, rest.0 (step.0 h).1), λ h. step.1 (h.0, rest.1 h.1))

  -- Where success does not depend on the position.
  pub AllPass-All :
      (P : A → Type 0) (i : ℕ) (f : ℕ → A → Result E (Unit {0})) (xs : List A)
      → ((j : ℕ) (x : A) → (f j x ≡ ok tt) ↔ P x)
      → AllPass i f xs ↔ All P xs
  AllPass-All P i f [] e = (λ _. tt, λ _. tt)
  AllPass-All P i f (x ∷ xs) e =
      let rest = AllPass-All P (suc i) f xs e in
      (λ h. ((e i x).0 h.0, rest.0 h.1), λ h. ((e i x).1 h.0, rest.1 h.1))

  pub for_each-All :
      (P : A → Type 0) (f : ℕ → A → Result E (Unit {0})) (xs : List A)
      → ((j : ℕ) (x : A) → (f j x ≡ ok tt) ↔ P x)
      → (for_each 0 f xs ≡ ok tt) ↔ All P xs
  for_each-All P f xs e =
      let loop = for_each_iff 0 f xs in
      let same = AllPass-All P 0 f xs e in (λ h. same.0 (loop.0 h), λ h. loop.1 (same.1 h))

module _ {A B : Type 0} where
  -- `ys` are the values that are found under `xs`, in the same order.
  abbrev pub Found : (A → Option B) → List A → List B → Type 0
  Found get [] [] = Unit
  Found get [] (y ∷ ys) = ⊥
  Found get (x ∷ xs) [] = ⊥
  Found get (x ∷ xs) (y ∷ ys) = (get x ≡ some y) × Found get xs ys

module _ {A B : Type 0} {E : Type 0} where
  -- `iter().map(...).collect::<Result<Vec<_>, _>>()`.
  abbrev pub collect : (A → Result E B) → List A → Result E (List B)
  collect f [] = ok []
  collect f (x ∷ xs) = do y ← f x; ys ← collect f xs; ok (y ∷ ys)

  abbrev pub look_up : (A → Option B) → (A → E) → A → Result E B
  look_up get missing x = ok_or (get x) (missing x)

  collect-Found :
      (get : A → Option B) (missing : A → E) (xs : List A) (ys : List B)
      → collect (look_up get missing) xs ≡ ok ys
      → Found get xs ys
  collect-Found get missing [] [] h = tt
  collect-Found get missing [] (y ∷ ys) h = cc
  collect-Found get missing (x ∷ xs) ys h =
      let (y, e, h') = >>=-eq-ok (look_up get missing x) _ h in
      let (rest, f, h'') = >>=-eq-ok (collect (look_up get missing) xs) _ h' in
      subst (Found get (x ∷ xs)) (ok-injective h'')
        (ok_or-eq-ok (get x) (missing x) e, collect-Found get missing xs rest f)

  Found-collect :
      (get : A → Option B) (missing : A → E) (xs : List A) (ys : List B)
      → Found get xs ys
      → collect (look_up get missing) xs ≡ ok ys
  Found-collect get missing [] [] h = refl
  Found-collect get missing [] (y ∷ ys) h = absurd h
  Found-collect get missing (x ∷ xs) [] h = absurd h
  Found-collect get missing (x ∷ xs) (y ∷ ys) h = rw (h.0, Found-collect get missing xs ys h.1)

  pub collect_iff :
      (get : A → Option B) (missing : A → E) (xs : List A) (ys : List B)
      → (collect (look_up get missing) xs ≡ ok ys) ↔ Found get xs ys
  collect_iff get missing xs ys = (collect-Found get missing xs ys, Found-collect get missing xs ys)
