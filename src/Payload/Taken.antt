-- ===== src/Payload/Taken.antt =====
-- src/envelope.rs: fields taken from a payload, by the value that would be inserted for them.
use pq_ucan.Base.{
  ◌≡◌, refl, sym, ap, ap₂, subst, Bool-cases, Option-cases, inl, inr, List, [], ◌∷◌, ◌++◌, Option,
  none, some, text_eq, text_eq→eq, Text, Result, ok, ◌>>=◌, ok_or, ok_or-eq-ok, >>=-eq-ok,
  ok-injective, some-injective, arith,
}
use pq_ucan.Codec.Decode.{Entry, key_bytes, replace}
use pq_ucan.Codec.Order.{byte_order, byte_order-IsOrder}
use pq_ucan.Codec.Sorted.{IsSorted}
use pq_ucan.Codec.Sorted.Taken
use pq_ucan.Codec.Sorted.Taken.{Took, Took-first, Took-later}
use pq_ucan.Error.{Error, missing}
use pq_ucan.Ipld.{Ipld}
use pq_ucan.Payload.{take_field, require, required, optional, transpose, optional_entry}

module _ {C : Type 0} where
  abbrev pub IsMap : List (Entry C) → Type 0
  IsMap m = IsSorted key_bytes byte_order m

  abbrev pub TookField : Entry C → List (Entry C) → List (Entry C) → Type 0
  TookField e m m' = Took key_bytes byte_order byte_order-IsOrder replace e m m'

  abbrev pub TakenFields : List (Entry C) → List (Entry C) → Type 0
  TakenFields es m = Taken.Taken key_bytes byte_order byte_order-IsOrder replace es m

  take_field-some :
      (field : Text) (m : List (Entry C)) (v : Ipld C)
      → IsMap m
      → (take_field field m).0 ≡ some v
      → TookField (field, v) m (take_field field m).1
  take_field-some field [] v s h = cc
  take_field-some field ((k, w) ∷ m) v s h = elim (Bool-cases (text_eq k field)) [
    | inl here ↦
        let same : (k, w) ≡ (field, v) =
          ap₂ (λ a b. (a, b)) (text_eq→eq k field here) (some-injective (rw here at h)) in
        rw here (
          subst (λ (e : Entry C). TookField e ((k, w) ∷ m) m) same
            (Took-first key_bytes byte_order byte_order-IsOrder replace (k, w) m s))
    | inr further ↦ rw further (
        Took-later key_bytes byte_order byte_order-IsOrder replace (field, v) (k, w) m
          (take_field field m).1 s (take_field-some field m v s.1 (rw further at h)))
  ]

  take_field-none :
      (field : Text) (m : List (Entry C))
      → (take_field field m).0 ≡ none
      → (take_field field m).1 ≡ m
  take_field-none field [] h = refl
  take_field-none field ((k, w) ∷ m) h = elim (Bool-cases (text_eq k field)) [
    | inl here ↦ ground arith
    | inr further ↦ rw further (ap (λ l. (k, w) ∷ l) (take_field-none field m (rw further at h)))
  ]

  -- `write` writes what `read` reads.
  abbrev pub Writes : {A : Type 0} → (Ipld C → Text → Result Error A) → (A → Ipld C) → Type 0
  Writes {A} read write = (v : Ipld C) (field : Text) (a : A) → read v field ≡ ok a → write a ≡ v

  module _ {A : Type 0} (read : Ipld C → Text → Result Error A) (write : A → Ipld C)
      (law : Writes read write) where
    required-Taken :
        (field : Text) (m m' : List (Entry C)) (a : A)
        → IsMap m
        → required read field m ≡ ok (a, m')
        → TookField (field, write a) m m'
    required-Taken field m m' a s h =
        let ((v, m1), there, h1) = >>=-eq-ok (require field m) _ h in
        let (w, found, h2) =
          >>=-eq-ok (ok_or (take_field field m).0 (Error.payload (missing field))) _ there in
        let (b, converted, h3) = >>=-eq-ok (read v field) _ h1 in
        let same : (w, (take_field field m).1) ≡ (v, m1) = ok-injective h2 in
        let same' : (b, m1) ≡ (a, m') = ok-injective h3 in
        let took =
          take_field-some field m w s
            (ok_or-eq-ok (take_field field m).0 (Error.payload (missing field)) found) in
        let took1 : TookField (field, v) m m1 =
          subst (λ (p : Ipld C × List (Entry C)). TookField (field, p.0) m p.1) same took in
        subst (λ (p : A × List (Entry C)). TookField (field, write p.0) m p.1) same'
          (subst (λ x. TookField (field, x) m m1) (sym (law v field b converted)) took1)

    -- The field was taken, or it is not there and nothing was taken.
    optional-Taken :
        (field : Text) (m m' : List (Entry C)) (o : Option A)
        → IsMap m
        → optional read field m ≡ ok (o, m')
        → ((es : List (Entry C))
            → TakenFields es m'
            → TakenFields (optional_entry field write o ++ es) m)
          × IsMap m'
    optional-Taken field m m' o s h =
        let (b, converted, h1) = >>=-eq-ok (transpose read field (take_field field m).0) _ h in
        let same : (b, (take_field field m).1) ≡ (o, m') = ok-injective h1 in
        subst
          (λ (p : Option A × List (Entry C)).
            ((es : List (Entry C))
              → TakenFields es p.1
              → TakenFields (optional_entry field write p.0 ++ es) m)
            × IsMap p.1)
          same
          (elim (Option-cases (take_field field m).0) [
            | inl absent ↦
                let nothing : none ≡ b = ok-injective (rw absent at converted) in
                let left = take_field-none field m absent in
                rw left (
                  subst
                    (λ q.
                      ((es : List (Entry C))
                        → TakenFields es m
                        → TakenFields (optional_entry field write q ++ es) m)
                      × IsMap m)
                    nothing (λ es t. t, s))
            | inr (v, present) ↦
                let (a, read_as, h2) = >>=-eq-ok (read v field) _ (rw present at converted) in
                let taken : some a ≡ b = ok-injective h2 in
                let took = take_field-some field m v s present in
                let took' =
                  subst (λ x. TookField (field, x) m (take_field field m).1)
                    (sym (law v field a read_as)) took in
                subst
                  (λ q.
                    ((es : List (Entry C))
                      → TakenFields es (take_field field m).1
                      → TakenFields (optional_entry field write q ++ es) m)
                    × IsMap (take_field field m).1)
                  taken (λ es t. ((take_field field m).1, took', t), took.sorted)
          ])

    -- A chain that succeeds, after its first field.
    pub after_required :
        {B R : Type 0} (field : Text) (m : List (Entry C))
        (next : A × List (Entry C) → Result Error B) {b : B}
        → IsMap m
        → (required read field m >>= next) ≡ ok b
        → ((a : A) (m' : List (Entry C))
            → TookField (field, write a) m m'
            → next (a, m') ≡ ok b
            → R)
        → R
    after_required field m next s h go =
        let ((a, m'), first, later) = >>=-eq-ok (required read field m) next h in
        go a m' (required-Taken field m m' a s first) later

    pub after_optional :
        {B R : Type 0} (field : Text) (m : List (Entry C))
        (next : Option A × List (Entry C) → Result Error B) {b : B}
        → IsMap m
        → (optional read field m >>= next) ≡ ok b
        → ((o : Option A) (m' : List (Entry C))
            → ((es : List (Entry C))
                → TakenFields es m'
                → TakenFields (optional_entry field write o ++ es) m)
            → IsMap m'
            → next (o, m') ≡ ok b
            → R)
        → R
    after_optional field m next s h go =
        let ((o, m'), first, later) = >>=-eq-ok (optional read field m) next h in
        let (taken, sorted) = optional-Taken field m m' o s first in go o m' taken sorted later
