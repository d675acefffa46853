-- ===== src/Codec/Sorted/Taken.antt =====
-- Entries taken out of a sorted list one after the other, and inserted again.
use pq_ucan.Base.{
  Ordering, ◌≡◌, refl, sym, ap, subst, ◌∙◌, ◌≢◌, inl, inr, List, [], ◌∷◌, Bytes, All,
}
use pq_ucan.Codec.Order.{IsOrder}
use pq_ucan.Codec.Sorted.{
  place, place_all, sort_entries, IsFresh, IsDistinct, IsSorted, place_below, place_above, apart,
  sort-IsSorted,
}
use pq_ucan.Codec.Sorted.Both.{place_all_sorted, place_all_sort, AreFresh-nil}

module _ {E : Type 0} (key : E → Bytes) (order : Bytes → Bytes → Ordering) (laws : IsOrder order)
    (same : E → E → List E → List E) where
  -- What holds of each entry after one was placed.
  unplace :
      (P : E → Type 0) (e : E) (xs : List E)
      → IsFresh key e xs
      → All P (place key order same e xs)
      → P e × All P xs
  unplace P e [] f all = unfold place in all
  unplace P e (x ∷ xs) f all = elim (apart key order laws same e x f.0) [
    | inl less ↦ let all' = subst (All P) (place_below key order laws same e x xs less) all in all'
    | inr more ↦
        let all' = subst (All P) (place_above key order laws same e x xs more) all in
        let (p, ps) = unplace P e xs f.1 all'.1 in (p, (all'.0, ps))
  ]

  place_front :
      (e : E) (xs : List E)
      → All (λ x. order (key e) (key x) ≡ Ordering.lt) xs
      → place key order same e xs ≡ e ∷ xs
  place_front e [] all = unfold place in refl
  place_front e (x ∷ xs) all = place_below key order laws same e x xs all.0

  lt_differs : (a b : Bytes) → order a b ≡ Ordering.lt → a ≢ b
  lt_differs a b less e = cc (less, laws.same a, ap (order a) e)

  -- The entry `e` was taken from the sorted list `m`, and `m'` is left.
  pub record Took (e : E) (m m' : List E) : Type 0 where
    pub back : m ≡ place key order same e m'
    pub fresh : IsFresh key e m'
    pub sorted : IsSorted key order m'

  IsFresh-below :
      (e : E) (xs : List E) → All (λ x. order (key e) (key x) ≡ Ordering.lt) xs → IsFresh key e xs
  IsFresh-below e [] all = tt
  IsFresh-below e (x ∷ xs) all = (lt_differs (key e) (key x) all.0, IsFresh-below e xs all.1)

  pub Took-first : (e : E) (xs : List E) → IsSorted key order (e ∷ xs) → Took e (e ∷ xs) xs
  Took-first e xs s = record {
    back = sym (place_front e xs s.0);
    fresh = IsFresh-below e xs s.0;
    sorted = s.1;
  }

  pub Took-later :
      (e x : E) (m m' : List E) → IsSorted key order (x ∷ m) → Took e m m' → Took e (x ∷ m) (x ∷ m')
  Took-later e x m m' s took =
      let (below, all) =
        unplace (λ y. order (key x) (key y) ≡ Ordering.lt) e m' took.fresh
          (subst (All (λ y. order (key x) (key y) ≡ Ordering.lt)) took.back s.0) in
      record {
        back =
            ap (λ l. x ∷ l) took.back
            ∙ sym (place_above key order laws same e x m' (laws.flip_lt (key x) (key e) below));
        fresh = (λ equal. lt_differs (key x) (key e) below (sym equal), took.fresh);
        sorted = (all, took.sorted);
      }

  -- All entries were taken, in the order of the list.
  abbrev pub Taken : List E → List E → Type 0
  Taken [] m = m ≡ []
  Taken (e ∷ es) m = (m' : List E) × Took e m m' × Taken es m'

  pub Taken-All : (P : E → Type 0) (es m : List E) → Taken es m → All P m → All P es
  Taken-All P [] m t all = tt
  Taken-All P (e ∷ es) m (m', took, t) all =
      let (p, ps) = unplace P e m' took.fresh (subst (All P) took.back all) in
      (p, Taken-All P es m' t ps)

  Taken-IsDistinct : (es m : List E) → Taken es m → IsDistinct key es
  Taken-IsDistinct [] m t = tt
  Taken-IsDistinct (e ∷ es) m (m', took, t) =
      (Taken-All (λ x. key e ≢ key x) es m' t took.fresh, Taken-IsDistinct es m' t)

  sort-Taken : (es m : List E) → Taken es m → sort_entries key order same es ≡ m
  sort-Taken [] m t = sym t
  sort-Taken (e ∷ es) m (m', took, t) =
      ap (place key order same e) (sort-Taken es m' t) ∙ sym took.back

  pub place_all-Taken : (es m : List E) → Taken es m → place_all key order same [] es ≡ m
  place_all-Taken es m t =
      let distinct = Taken-IsDistinct es m t in
      sym (place_all_sort key order laws same order laws same [] es distinct (AreFresh-nil key es))
      ∙ place_all_sorted key order laws same [] (sort_entries key order same es)
          (sort-IsSorted key order laws same es distinct)
      ∙ sort-Taken es m t
