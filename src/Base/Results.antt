-- ===== src/Base/Results.antt =====
-- `Result<A, E>` with `?` as bind, and the loops that stop at the first failure.
use mathlib.Core.Path.{◌≡◌, refl}
use mathlib.Core.Logic.{◌↔◌, ◌⊎◌, inl, inr}
use mathlib.Core.Option.{Option, none, some}
use mathlib.Core.Bool.{Bool, true, false}

pub data Result {ℓ κ} (E : Type ℓ) (A : Type κ) : Type (ℓ ⊔ κ) where
  ok : A → Result E A
  err : E → Result E A

infixl 5 ◌>>=◌ ◌>>◌
abbrev pub ◌>>=◌ {ℓ κ μ} :
    {E : Type ℓ} {A : Type κ} {B : Type μ} → Result E A → (A → Result E B) → Result E B
err e >>= next = err e
ok x >>= next = next x

abbrev pub ◌>>◌ {ℓ κ} : {E : Type ℓ} {B : Type κ} → Result E (Unit {0}) → Result E B → Result E B
first >> next = first >>= λ _. next

abbrev pub ok_or {ℓ κ} : {E : Type ℓ} {A : Type κ} → Option A → E → Result E A
ok_or (some a) e = ok a
ok_or none e = err e

abbrev pub map_err {ℓ κ μ} :
    {E : Type ℓ} {F : Type κ} {A : Type μ} → (E → F) → Result E A → Result F A
map_err f (ok a) = ok a
map_err f (err e) = err (f e)

-- `if !b { return Err(e) }`
abbrev pub ensure {ℓ} : {E : Type ℓ} → Bool → E → Result E (Unit {0})
ensure true e = ok tt
ensure false e = err e

-- What a chain that succeeds has passed through.
pub >>=-eq-ok {ℓ κ μ} :
    {E : Type ℓ} {A : Type κ} {B : Type μ} (first : Result E A) (next : A → Result E B) {end : B}
    → (first >>= next) ≡ ok end
    → (x : A) × (first ≡ ok x) × (next x ≡ ok end)
>>=-eq-ok (err _) next passed = cc
>>=-eq-ok (ok x) next passed = (x, refl, passed)

pub ensure-eq-ok {ℓ} : {E : Type ℓ} (b : Bool) (e : E) {u : Unit {0}} → ensure b e ≡ ok u → b ≡ true
ensure-eq-ok true e h = refl
ensure-eq-ok false e h = cc

pub ok_or-eq-ok {ℓ κ} :
    {E : Type ℓ} {A : Type κ} (o : Option A) (e : E) {a : A} → ok_or o e ≡ ok a → o ≡ some a
ok_or-eq-ok (some x) e h = cc
ok_or-eq-ok none e h = cc

pub then_iff {ℓ} :
    {E : Type ℓ} (m k : Result E (Unit {0})) → ((m >> k) ≡ ok tt) ↔ ((m ≡ ok tt) × (k ≡ ok tt))
then_iff (ok tt) k = (λ h. (refl, h), λ h. h.1)
then_iff (err e) k = (λ h. cc, λ h. cc)

pub ensure_iff {ℓ} : {E : Type ℓ} (b : Bool) (e : E) → (ensure b e ≡ ok tt) ↔ (b ≡ true)
ensure_iff true e = (λ _. refl, λ _. refl)
ensure_iff false e = (λ h. cc, λ h. cc)

pub map_err_iff {ℓ κ μ} :
    {E : Type ℓ} {F : Type κ} {A : Type μ} (f : E → F) (r : Result E A) (a : A)
    → (map_err f r ≡ ok a) ↔ (r ≡ ok a)
map_err_iff f (ok b) a = (λ h. cc, λ h. cc)
map_err_iff f (err e) a = (λ h. cc, λ h. cc)

pub ok-injective {ℓ κ} :
    {E : Type ℓ} {B : Type κ} {x y : B} → ◌≡◌ {A = Result E B} (ok x) (ok y) → x ≡ y
ok-injective h = cc

pub some-injective {ℓ} : {A : Type ℓ} {x y : A} → ◌≡◌ {A = Option A} (some x) (some y) → x ≡ y
some-injective h = cc

pub Result-cases {ℓ κ} :
    {E : Type ℓ} {A : Type κ} (r : Result E A) → ((a : A) × (r ≡ ok a)) ⊎ ((e : E) × (r ≡ err e))
Result-cases (ok a) = inl (a, refl)
Result-cases (err e) = inr (e, refl)

pub ensure_both_iff {ℓ} :
    {E : Type ℓ} (b c : Bool) (e f : E)
    → ((ensure b e >> ensure c f) ≡ ok tt) ↔ ((b ≡ true) × (c ≡ true))
ensure_both_iff true true e f = (λ _. (refl, refl), λ _. refl)
ensure_both_iff true false e f = (λ h. cc, λ h. cc)
ensure_both_iff false c e f = (λ h. cc, λ h. cc)

-- Two checks in a row, by what each of them means.
pub step_iff {ℓ κ μ} :
    {E : Type ℓ} {P : Type κ} {Q : Type μ} {m k : Result E (Unit {0})}
    → (m ≡ ok tt) ↔ P
    → (k ≡ ok tt) ↔ Q
    → ((m >> k) ≡ ok tt) ↔ (P × Q)
step_iff {m = m} {k = k} p q =
    let both = then_iff m k in
    (λ h. let (a, b) = both.0 h in (p.0 a, q.0 b), λ (a, b). both.1 (p.1 a, q.1 b))

-- A chain that succeeds, after its first result.
pub after_map_err {ℓ κ μ} :
    {E : Type ℓ} {F : Type κ} {A B R : Type μ} (f : E → F) (r : Result E A) (next : A → Result F B)
    {b : B}
    → (map_err f r >>= next) ≡ ok b
    → ((a : A) → r ≡ ok a → next a ≡ ok b → R)
    → R
after_map_err f (ok a) next h go = go a refl h
after_map_err f (err e) next h go = cc

pub after_ensure {ℓ κ} :
    {E : Type ℓ} {B R : Type κ} (test : Bool) (e : E) (next : Unit {0} → Result E B) {b : B}
    → (ensure test e >>= next) ≡ ok b
    → (test ≡ true → next tt ≡ ok b → R)
    → R
after_ensure true e next h go = go refl h
after_ensure false e next h go = cc
