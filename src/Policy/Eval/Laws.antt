-- ===== src/Policy/Eval/Laws.antt =====
-- src/policy/mod.rs: what `Policy::check` reports.
use pq_ucan.Base.{
  ℕ, suc, ◌+◌, ◌≡◌, ◌↔◌, refl, subst, Bool, true, false, not, [], ◌∷◌, Option, none, some, all,
  take, get_elem?, position_from, Result, ok, err, arith, Bool-cases, inl, inr, Option-cases,
}
use pq_ucan.Ipld.{Ipld}
use pq_ucan.Policy.Syntax.{Statement, Policy}
use pq_ucan.Policy.Eval.{holds, check}

module _ {C : Type 0} (same_cid : C → C → Bool) where
  -- Every statement of the policy holds.
  abbrev pub Holds : Ipld C → Policy C → Type 0
  Holds args p = all (λ s. holds same_cid s args) p ≡ true

  -- `i` is the index of a statement that does not hold, and those in front of it hold.
  abbrev pub FirstFailure : Ipld C → Policy C → ℕ → Type 0
  FirstFailure args p i =
      (s : Statement C) × (get_elem? p i ≡ some s)
      × (holds same_cid s args ≡ false)
      × (all (λ t. holds same_cid t args) (take i p) ≡ true)

  abbrev find : Ipld C → ℕ → Policy C → Option ℕ
  find args k p = position_from k (λ s. not (holds same_cid s args)) p

  find-none : (args : Ipld C) (k : ℕ) (p : Policy C) → (find args k p ≡ none) ↔ Holds args p
  find-none args k [] = (λ _. refl, λ _. refl)
  find-none args k (s ∷ p) = ground (arith, find-none args (suc k) p)

  find-some :
      (args : Ipld C) (k i : ℕ) (p : Policy C)
      → find args k p ≡ some i
      → (j : ℕ) × (i ≡ k + j) × FirstFailure args p j
  find-some args k i [] h = cc
  find-some args k i (s ∷ p) h = elim (Bool-cases (holds same_cid s args)) [
    | inl good ↦
        let (j, e, (t, f, g, r)) = find-some args (suc k) i p (ground arith) in
        (suc j, omega arith, (t, f, g, ground arith))
    | inr bad ↦ (0, ground arith, (s, refl, bad, refl))
  ]

  -- `check` accepts exactly when every statement holds, and otherwise returns the index of the first
  -- statement that does not.
  pub check_iff :
      (p : Policy C) (args : Ipld C)
      → ((check same_cid p args ≡ ok tt) ↔ Holds args p)
        × ((i : ℕ) → check same_cid p args ≡ err i → FirstFailure args p i)
  unfolding check
  check_iff p args = elim (Option-cases (find args 0 p)) [
    | inl missing ↦
        rw (missing, check) ((λ _. (find-none args 0 p).0 missing, λ _. refl), λ i h. cc)
    | inr (k, found) ↦
        rw (found, check)
          ((λ h. cc, λ h. absurd (some_is_none found h)), λ i h. index_found found i h)
  ]
    where
      some_is_none : {k : ℕ} → find args 0 p ≡ some k → Holds args p → ⊥
      some_is_none found h = cc ((find-none args 0 p).1 h)

      index_found :
          {k : ℕ}
          → find args 0 p ≡ some k
          → (i : ℕ) → ◌≡◌ {A = Result ℕ (Unit {0})} (err k) (err i)
          → FirstFailure args p i
      index_found {k} found i h =
          let (j, e, f) = find-some args 0 k p found in
          let same : j ≡ i = ground arith in subst (FirstFailure args p) same f
