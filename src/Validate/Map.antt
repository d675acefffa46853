-- ===== src/Validate/Map.antt =====
-- A `BTreeMap` by its keys, for src/validate.rs: the entries in no order, no key twice.
use pq_ucan.Base.{
  ◌≡◌, ◌↔◌, refl, sym, ap, ◌∙◌, ◌⊎◌, inl, inr, Bool, true, false, if◌then◌else◌, List, [], ◌∷◌,
  Option, none, some, Bool-cases,
}

module _ {K V : Type 0} (same_key : K → K → Bool) where
  abbrev pub find : List (K × V) → K → Option V
  find [] key = none
  find ((k, v) ∷ m) key = if same_key k key then some v else find m key

  -- `insert`, which replaces the value under an equal key.
  abbrev pub insert : List (K × V) → K → V → List (K × V)
  insert [] key value = (key, value) ∷ []
  insert ((k, v) ∷ m) key value =
      let rest = insert m key value in if same_key k key then (k, value) ∷ m else (k, v) ∷ rest

  abbrev pub remove : List (K × V) → K → List (K × V)
  remove [] key = []
  remove ((k, v) ∷ m) key = let rest = remove m key in if same_key k key then m else (k, v) ∷ rest

module _ {K V : Type 0} where
  abbrev pub retain : (V → Bool) → List (K × V) → List (K × V)
  retain p [] = []
  retain p ((k, v) ∷ m) = let rest = retain p m in if p v then (k, v) ∷ rest else rest

-- The equality of keys is an equality.
abbrev pub IsEquality : {K : Type 0} → (K → K → Bool) → Type 0
IsEquality {K} same = (a b : K) → (same a b ≡ true) ↔ (a ≡ b)

abbrev pub kept : {V : Type 0} → (V → Bool) → Option V → Option V
kept p none = none
kept p (some v) = if p v then some v else none

module _ {K : Type 0} (same_key : K → K → Bool) (lawful : IsEquality same_key) where
  same_refl : (k : K) → same_key k k ≡ true
  same_refl k = (lawful k k).1 refl

  different : (a b c : K) → same_key a b ≡ true → same_key b c ≡ false → same_key a c ≡ false
  different a b c h d = let e : a ≡ b = (lawful a b).0 h in rw (e, d) refl

module _ {K V : Type 0} (same_key : K → K → Bool) (lawful : IsEquality same_key) where
  pub find-insert :
      (m : List (K × V)) (key : K) (value : V)
      → find same_key (insert same_key m key value) key ≡ some value
  find-insert [] key value = rw (same_refl same_key lawful key) refl
  find-insert ((k, v) ∷ m) key value = elim (Bool-cases (same_key k key)) [
    | inl e ↦ rw (e, e) refl
    | inr e ↦ rw (e, e) (find-insert m key value)
  ]

  pub find-insert_other :
      (m : List (K × V)) (key other : K) (value : V)
      → same_key key other ≡ false
      → find same_key (insert same_key m key value) other ≡ find same_key m other
  find-insert_other [] key other value h = rw h refl
  find-insert_other ((k, v) ∷ m) key other value h = elim (Bool-cases (same_key k key)) [
    | inl e ↦ rw (e, different same_key lawful k key other e h) refl
    | inr e ↦ rw (e, find-insert_other m key other value h) refl
  ]

  -- No key is there twice.
  abbrev pub Unique : List (K × V) → Type 0
  Unique [] = Unit
  Unique ((k, v) ∷ m) = (find same_key m k ≡ none) × Unique m

  pub find-retain :
      (p : V → Bool) (m : List (K × V)) (key : K)
      → Unique m
      → find same_key (retain p m) key ≡ kept p (find same_key m key)
  find-retain p [] key u = refl
  find-retain p ((k, v) ∷ m) key u =
      let rest = find-retain p m key u.1 in
      elim (Bool-cases (same_key k key)) [
        | inl e ↦
            let absent : find same_key m key ≡ none =
              ap (find same_key m) (sym ((lawful k key).0 e)) ∙ u.0 in
            elim (Bool-cases (p v)) [
              | inl good ↦ rw (e, good, e) refl
              | inr bad ↦ rw (e, bad, rest, absent) refl
            ]
        | inr e ↦ elim (Bool-cases (p v)) [
          | inl good ↦ rw (e, good, e) rest
          | inr bad ↦ rw (e, bad) rest
        ]
      ]

  insert-Unique_step :
      (m : List (K × V)) (k key : K) (value : V)
      → same_key k key ≡ false
      → find same_key m k ≡ none
      → find same_key (insert same_key m key value) k ≡ none
  insert-Unique_step m k key value e h =
      find-insert_other m key k value (not_same (Bool-cases (same_key key k))) ∙ h
    where
      not_same : (same_key key k ≡ true) ⊎ (same_key key k ≡ false) → same_key key k ≡ false
      not_same (inr f) = f
      not_same (inl f) = cc ((lawful k key).1 (sym ((lawful key k).0 f)))

  pub insert-Unique :
      (m : List (K × V)) (key : K) (value : V) → Unique m → Unique (insert same_key m key value)
  insert-Unique [] key value u = (refl, tt)
  insert-Unique ((k, v) ∷ m) key value u = elim (Bool-cases (same_key k key)) [
    | inl e ↦ rw e u
    | inr e ↦ rw e (insert-Unique_step m k key value e u.0, insert-Unique m key value u.1)
  ]
