-- ===== src/Codec/Sorted.antt =====
-- Entries in the order of their keys: the insertion that a `BTreeMap` and a stable sort are made of.
pub mod Both
pub mod Taken
use pq_ucan.Base.{
  ℕ, Ordering, ◌≡◌, refl, sym, ap, subst, ◌∙◌, ◌≢◌, ◌⊎◌, inl, inr, List, [], ◌∷◌, ◌++◌,
  append_assoc, append-nil, Bytes, All,
}
use pq_ucan.Codec.Order.{IsOrder}

pub Ordering-cases : (o : Ordering) → (o ≡ Ordering.lt) ⊎ ((o ≡ Ordering.eq) ⊎ (o ≡ Ordering.gt))
Ordering-cases Ordering.lt = inl refl
Ordering-cases Ordering.eq = inr (inl refl)
Ordering-cases Ordering.gt = inr (inr refl)

module _ {E : Type 0} where
  -- The arms at an entry `x` of the list: in front of it, at it, or behind it.
  abbrev pub arm : Ordering → E → E → List E → List E → List E → List E
  arm Ordering.lt e x xs equal later = e ∷ x ∷ xs
  arm Ordering.eq e x xs equal later = equal
  arm Ordering.gt e x xs equal later = x ∷ later

module _ {E : Type 0} (key : E → Bytes) (order : Bytes → Bytes → Ordering)
    (same : E → E → List E → List E) where
  -- `same` says what happens at an equal key.
  unfoldable pub place : E → List E → List E
  place e [] = e ∷ []
  place e (x ∷ xs) =
      let later = place e xs in arm (order (key e) (key x)) e x xs (same e x xs) later

  -- Entries placed one after the other, the first one first.
  abbrev pub place_all : List E → List E → List E
  place_all m [] = m
  place_all m (e ∷ es) = place_all (place e m) es

  -- Insertion sort.
  abbrev pub sort_entries : List E → List E
  sort_entries [] = []
  sort_entries (e ∷ es) = place e (sort_entries es)

module _ {E : Type 0} (key : E → Bytes) where
  -- No entry has the key of `e`.
  abbrev pub IsFresh : E → List E → Type 0
  IsFresh e xs = All (λ x. key e ≢ key x) xs

  abbrev pub IsDistinct : List E → Type 0
  IsDistinct [] = Unit
  IsDistinct (e ∷ es) = IsFresh e es × IsDistinct es

  module _ (order : Bytes → Bytes → Ordering) where
    -- Strictly increasing.
    abbrev pub IsSorted : List E → Type 0
    IsSorted [] = Unit
    IsSorted (e ∷ es) = All (λ x. order (key e) (key x) ≡ Ordering.lt) es × IsSorted es

module _ {E : Type 0} (key : E → Bytes) (order : Bytes → Bytes → Ordering) (laws : IsOrder order)
    (same : E → E → List E → List E) where
  pub place_below :
      (e x : E) (xs : List E)
      → order (key e) (key x) ≡ Ordering.lt
      → place key order same e (x ∷ xs) ≡ e ∷ x ∷ xs
  unfolding place
  place_below e x xs h = rw h refl

  pub place_above :
      (e x : E) (xs : List E)
      → order (key e) (key x) ≡ Ordering.gt
      → place key order same e (x ∷ xs) ≡ x ∷ place key order same e xs
  unfolding place
  place_above e x xs h = rw h refl

  -- Two keys that differ.
  pub apart :
      (e x : E)
      → key e ≢ key x
      → (order (key e) (key x) ≡ Ordering.lt) ⊎ (order (key e) (key x) ≡ Ordering.gt)
  apart e x differ = elim (Ordering-cases (order (key e) (key x))) [
    | inl less ↦ inl less
    | inr (inl equal) ↦ absurd (differ (laws.equal (key e) (key x) equal))
    | inr (inr more) ↦ inr more
  ]

  abbrev pub put : E → List E → List E
  put e xs = place key order same e xs

  -- Both come in front of the list.
  put_both :
      (a b : E) (xs : List E)
      → order (key a) (key b) ≡ Ordering.lt
      → put a xs ≡ a ∷ xs
      → put b xs ≡ b ∷ xs
      → put a (put b xs) ≡ put b (put a xs)
  put_both a b xs less ea eb =
      ap (put a) eb
      ∙ place_below a b xs less
      ∙ sym (
          ap (put b) ea
          ∙ place_above b a xs (laws.flip_lt (key a) (key b) less)
          ∙ ap (λ l. a ∷ l) eb)

  -- One comes in front of `x`, the other behind it.
  put_around :
      (a b x : E) (xs : List E)
      → order (key a) (key x) ≡ Ordering.lt
      → order (key b) (key x) ≡ Ordering.gt
      → put a (put b (x ∷ xs)) ≡ put b (put a (x ∷ xs))
  put_around a b x xs before behind =
      let less = laws.trans (key a) (key x) (key b) before (laws.flip_gt (key b) (key x) behind) in
      ap (put a) (place_above b x xs behind)
      ∙ place_below a x (put b xs) before
      ∙ sym (
          ap (put b) (place_below a x xs before)
          ∙ place_above b a (x ∷ xs) (laws.flip_lt (key a) (key b) less)
          ∙ ap (λ l. a ∷ l) (place_above b x xs behind))

  put_front :
      (a b : E) (xs : List E)
      → key a ≢ key b
      → put a xs ≡ a ∷ xs
      → put b xs ≡ b ∷ xs
      → put a (put b xs) ≡ put b (put a xs)
  put_front a b xs differ ea eb = elim (apart a b differ) [
    | inl less ↦ put_both a b xs less ea eb
    | inr more ↦ sym (put_both b a xs (laws.flip_gt (key a) (key b) more) eb ea)
  ]

  pub place_comm :
      (a b : E) (xs : List E)
      → key a ≢ key b
      → IsFresh key a xs
      → IsFresh key b xs
      → place key order same a (place key order same b xs)
        ≡ place key order same b (place key order same a xs)
  place_comm a b [] differ fa fb =
      put_front a b [] differ (unfold place in refl) (unfold place in refl)
  place_comm a b (x ∷ xs) differ fa fb = elim (apart a x fa.0) [
    | inl a_less ↦ elim (apart b x fb.0) [
      | inl b_less ↦
          put_front a b (x ∷ xs) differ (place_below a x xs a_less) (place_below b x xs b_less)
      | inr b_more ↦ put_around a b x xs a_less b_more
    ]
    | inr a_more ↦ elim (apart b x fb.0) [
      | inl b_less ↦ sym (put_around b a x xs b_less a_more)
      | inr b_more ↦
          ap (put a) (place_above b x xs b_more)
          ∙ place_above a x (put b xs) a_more
          ∙ ap (λ l. x ∷ l) (place_comm a b xs differ fa.1 fb.1)
          ∙ sym (ap (put b) (place_above a x xs a_more) ∙ place_above b x (put a xs) b_more)
    ]
  ]

  pub All-place :
      (P : E → Type 0) (e : E) (xs : List E)
      → IsFresh key e xs
      → P e
      → All P xs
      → All P (place key order same e xs)
  All-place P e [] f p ps = unfold place in (p, tt)
  All-place P e (x ∷ xs) f p ps = elim (apart e x f.0) [
    | inl less ↦ rw (place_below e x xs less) (p, ps)
    | inr more ↦ rw (place_above e x xs more) (ps.0, All-place P e xs f.1 p ps.1)
  ]

  pub place-IsSorted :
      (e : E) (xs : List E)
      → IsFresh key e xs
      → IsSorted key order xs
      → IsSorted key order (place key order same e xs)
  place-IsSorted e [] f s = unfold place in (tt, tt)
  place-IsSorted e (x ∷ xs) f s = elim (apart e x f.0) [
    | inl less ↦ rw (place_below e x xs less) ((less, below e x xs less s.0), s)
    | inr more ↦ rw (place_above e x xs more) (
      All-place (λ y. order (key x) (key y) ≡ Ordering.lt) e xs f.1
          (laws.flip_gt (key e) (key x) more) s.0,
      place-IsSorted e xs f.1 s.1,
    )
  ]
    where
      below :
          (e x : E) (ys : List E)
          → order (key e) (key x) ≡ Ordering.lt
          → All (λ y. order (key x) (key y) ≡ Ordering.lt) ys
          → All (λ y. order (key e) (key y) ≡ Ordering.lt) ys
      below e x [] less all = tt
      below e x (y ∷ ys) less all =
          (laws.trans (key e) (key x) (key y) less all.0, below e x ys less all.1)

  pub place_last :
      (e : E) (xs : List E)
      → All (λ x. order (key x) (key e) ≡ Ordering.lt) xs
      → put e xs ≡ xs ++ (e ∷ [])
  place_last e [] below = unfold place in refl
  place_last e (x ∷ xs) below =
      place_above e x xs (laws.flip_lt (key x) (key e) below.0)
      ∙ ap (λ l. x ∷ l) (place_last e xs below.1)

  -- Sorting keeps the entries: what holds of each holds of each, and no key is there twice.
  pub sort-All :
      (P : E → Type 0) (xs : List E)
      → IsDistinct key xs
      → All P xs
      → All P (sort_entries key order same xs)
  sort-All P [] d p = tt
  sort-All P (x ∷ xs) d p =
      All-place P x (sort_entries key order same xs) (sort-All (λ y. key x ≢ key y) xs d.1 d.0) p.0
        (sort-All P xs d.1 p.1)

  pub sort-IsSorted :
      (xs : List E) → IsDistinct key xs → IsSorted key order (sort_entries key order same xs)
  sort-IsSorted [] d = tt
  sort-IsSorted (x ∷ xs) d =
      place-IsSorted x (sort_entries key order same xs) (sort-All (λ y. key x ≢ key y) xs d.1 d.0)
        (sort-IsSorted xs d.1)

  pub IsSorted-IsDistinct : (xs : List E) → IsSorted key order xs → IsDistinct key xs
  IsSorted-IsDistinct [] s = tt
  IsSorted-IsDistinct (x ∷ xs) s = (fresh x xs s.0, IsSorted-IsDistinct xs s.1)
    where
      fresh :
          (x : E) (ys : List E)
          → All (λ y. order (key x) (key y) ≡ Ordering.lt) ys
          → IsFresh key x ys
      fresh x [] all = tt
      fresh x (y ∷ ys) all =
          (λ e. cc (all.0, laws.same (key x), ap (order (key x)) e), fresh x ys all.1)
