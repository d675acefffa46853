-- ===== src/Codec/Sorted/Both.antt =====
-- src/codec: entries that are kept in one order and written in another.
use pq_ucan.Base.{
  Ordering, ◌≡◌, refl, sym, ap, subst, ◌∙◌, ◌≢◌, inl, inr, List, [], ◌∷◌, ◌++◌, append_assoc,
  append-nil, Bytes, All,
}
use pq_ucan.Codec.Order.{IsOrder}
use pq_ucan.Codec.Sorted.{
  place, place_all, sort_entries, IsFresh, IsDistinct, IsSorted, place_below, place_above, apart,
  place_comm, place-IsSorted, All-place, place_last, sort-All, sort-IsSorted, IsSorted-IsDistinct,
}

module _ {E : Type 0} (key : E → Bytes) where
  -- No entry of the second list has a key of the first.
  abbrev pub AreFresh : List E → List E → Type 0
  AreFresh m es = All (λ e. IsFresh key e m) es

  pub AreFresh-nil : (es : List E) → AreFresh [] es
  AreFresh-nil [] = tt
  AreFresh-nil (e ∷ es) = (tt, AreFresh-nil es)

  IsFresh-flip : (e x : E) → key e ≢ key x → key x ≢ key e
  IsFresh-flip e x differ same = differ (sym same)

module _ {E : Type 0} (key : E → Bytes) (order : Bytes → Bytes → Ordering) (laws : IsOrder order)
    (same : E → E → List E → List E) where
  AreFresh-place :
      (e : E) (m es : List E)
      → IsFresh key e m
      → IsFresh key e es
      → AreFresh key m es
      → AreFresh key (place key order same e m) es
  AreFresh-place e m [] f g a = tt
  AreFresh-place e m (y ∷ es) f g a = (
    All-place key order laws same (λ x. key y ≢ key x) e m f (IsFresh-flip key e y g.0) a.0,
    AreFresh-place e m es f g.1 a.1,
  )

  place-IsDistinct :
      (e : E) (m : List E)
      → IsFresh key e m
      → IsDistinct key m
      → IsDistinct key (place key order same e m)
  place-IsDistinct e [] f d = unfold place in (tt, tt)
  place-IsDistinct e (x ∷ m) f d = elim (apart key order laws same e x f.0) [
    | inl less ↦ rw (place_below key order laws same e x m less) (f, d)
    | inr more ↦ rw (place_above key order laws same e x m more) (
      All-place key order laws same (λ y. key x ≢ key y) e m f.1 (IsFresh-flip key e x f.0) d.0,
      place-IsDistinct e m f.1 d.1,
    )
  ]

  -- Placing entries one after the other keeps the order.
  pub place_all-IsSorted :
      (m es : List E)
      → IsDistinct key es
      → AreFresh key m es
      → IsSorted key order m
      → IsSorted key order (place_all key order same m es)
  place_all-IsSorted m [] d f s = s
  place_all-IsSorted m (e ∷ es) d f s =
      place_all-IsSorted (place key order same e m) es d.1 (AreFresh-place e m es f.0 d.0 f.1)
        (place-IsSorted key order laws same e m f.0 s)

  -- Placing entries that come in order appends them.
  pub place_all_sorted :
      (m es : List E) → IsSorted key order (m ++ es) → place_all key order same m es ≡ m ++ es
  place_all_sorted m [] s = sym (append-nil m)
  place_all_sorted m (e ∷ es) s =
      ap (λ l. place_all key order same l es) (place_last key order laws same e m (below m e es s))
      ∙ place_all_sorted (m ++ (e ∷ [])) es
          (subst (IsSorted key order) (sym (append_assoc m (e ∷ []) es)) s)
      ∙ append_assoc m (e ∷ []) es
    where
      at_entry : (P : E → Type 0) (m : List E) (e : E) (es : List E) → All P (m ++ (e ∷ es)) → P e
      at_entry P [] e es all = all.0
      at_entry P (x ∷ m) e es all = at_entry P m e es all.1

      below :
          (m : List E) (e : E) (es : List E)
          → IsSorted key order (m ++ (e ∷ es))
          → All (λ x. order (key x) (key e) ≡ Ordering.lt) m
      below [] e es s = tt
      below (x ∷ m) e es s =
          (at_entry (λ y. order (key x) (key y) ≡ Ordering.lt) m e es s.0, below m e es s.1)

-- Entries are kept in the order `order`, and written in the order `written`.
module _ {E : Type 0} (key : E → Bytes) (order : Bytes → Bytes → Ordering) (laws : IsOrder order)
    (same : E → E → List E → List E) (written : Bytes → Bytes → Ordering)
    (written_laws : IsOrder written) (same_written : E → E → List E → List E) where
  sort_place :
      (e : E) (m : List E)
      → IsFresh key e m
      → IsDistinct key m
      → sort_entries key written same_written (place key order same e m)
        ≡ place key written same_written e (sort_entries key written same_written m)
  sort_place e [] f d = unfold place in refl
  sort_place e (x ∷ m) f d = elim (apart key order laws same e x f.0) [
    | inl less ↦
        ap (sort_entries key written same_written) (place_below key order laws same e x m less)
    | inr more ↦
        ap (sort_entries key written same_written) (place_above key order laws same e x m more)
        ∙ ap (place key written same_written x) (sort_place e m f.1 d.1)
        ∙ place_comm key written written_laws same_written x e
            (sort_entries key written same_written m) (IsFresh-flip key e x f.0)
            (sort-All key written written_laws same_written (λ y. key x ≢ key y) m d.1 d.0)
            (sort-All key written written_laws same_written (λ y. key e ≢ key y) m d.1 f.1)
  ]

  sort_place_all :
      (m es : List E)
      → IsDistinct key m
      → IsDistinct key es
      → AreFresh key m es
      → sort_entries key written same_written (place_all key order same m es)
        ≡ place_all key written same_written (sort_entries key written same_written m) es
  sort_place_all m [] d de f = refl
  sort_place_all m (e ∷ es) d de f =
      sort_place_all (place key order same e m) es (place-IsDistinct key order laws same e m f.0 d)
        de.1 (AreFresh-place key order laws same e m es f.0 de.0 f.1)
      ∙ ap (λ l. place_all key written same_written l es) (sort_place e m f.0 d)

  -- What was read in the written order is written in that order again.
  pub sort-place_all :
      (es : List E)
      → IsSorted key written es
      → sort_entries key written same_written (place_all key order same [] es) ≡ es
  sort-place_all es s =
      sort_place_all [] es tt (IsSorted-IsDistinct key written written_laws same_written es s)
        (AreFresh-nil key es)
      ∙ place_all_sorted key written written_laws same_written [] es s

  place_all-place :
      (m : List E) (e : E) (es : List E)
      → IsFresh key e m
      → IsFresh key e es
      → IsDistinct key es
      → AreFresh key m es
      → place_all key order same m (place key written same_written e es)
        ≡ place_all key order same (place key order same e m) es
  place_all-place m e [] f g d a = unfold place in refl
  place_all-place m e (x ∷ es) f g d a =
      elim (apart key written written_laws same_written e x g.0) [
        | inl less ↦
            ap (place_all key order same m)
              (place_below key written written_laws same_written e x es less)
        | inr more ↦
            ap (place_all key order same m)
              (place_above key written written_laws same_written e x es more)
            ∙ place_all-place (place key order same x m) e es
                (All-place key order laws same (λ y. key e ≢ key y) x m a.0 g.0 f) g.1 d.1
                (AreFresh-place key order laws same x m es a.0 d.0 a.1)
            ∙ ap (λ l. place_all key order same l es)
                (place_comm key order laws same e x m g.0 f a.0)
      ]

  pub place_all_sort :
      (m es : List E)
      → IsDistinct key es
      → AreFresh key m es
      → place_all key order same m (sort_entries key written same_written es)
        ≡ place_all key order same m es
  place_all_sort m [] d a = refl
  place_all_sort m (e ∷ es) d a =
      place_all-place m e (sort_entries key written same_written es) a.0
        (sort-All key written written_laws same_written (λ y. key e ≢ key y) es d.1 d.0)
        (IsSorted-IsDistinct key written written_laws same_written
          (sort_entries key written same_written es)
          (sort-IsSorted key written written_laws same_written es d.1))
        (sort-All key written written_laws same_written (λ y. IsFresh key y m) es d.1 a.1)
      ∙ place_all_sort (place key order same e m) es d.1
          (AreFresh-place key order laws same e m es a.0 d.0 a.1)

  -- What is written in the other order is read back in its own.
  pub place_all-sort :
      (m : List E)
      → IsSorted key order m
      → place_all key order same [] (sort_entries key written same_written m) ≡ m
  place_all-sort m s =
      place_all_sort [] m (IsSorted-IsDistinct key order laws same m s) (AreFresh-nil key m)
      ∙ place_all_sorted key order laws same [] m s
