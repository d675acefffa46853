-- ===== src/Ipld.antt =====
-- The IPLD values of the crate `ipld-core`, by the constructors that the code matches on. `C` stands
-- for its type of CIDs. A float is its 64 bits, a string its characters. A map is the list of its
-- entries in the order of its keys.
use pq_ucan.Base.{
  ℕ, suc, ◌≡◌, refl, ap, Bool, if◌then◌else◌, ℤ, List, [], ◌∷◌, Option, none, some, text_eq, Text,
  Bytes,
}

mutual
  pub data Ipld (C : Type 0) : Type 0 where
    null : Ipld C
    bool : Bool → Ipld C
    integer : ℤ → Ipld C
    float : ℕ → Ipld C
    string : Text → Ipld C
    bytes : Bytes → Ipld C
    list : Items C → Ipld C
    map : Fields C → Ipld C
    link : C → Ipld C

  pub data Items (C : Type 0) : Type 0 where
    nil : Items C
    cons : Ipld C → Items C → Items C

  pub data Fields (C : Type 0) : Type 0 where
    end : Fields C
    field : Text → Ipld C → Fields C → Fields C

module _ {C : Type 0} where
  abbrev pub to_list : Items C → List (Ipld C)
  to_list nil = []
  to_list (cons v vs) = v ∷ to_list vs

  abbrev pub of_list : List (Ipld C) → Items C
  of_list [] = nil
  of_list (v ∷ vs) = cons v (of_list vs)

  -- `map.values()`.
  abbrev pub values : Fields C → List (Ipld C)
  values end = []
  values (field k v fs) = v ∷ values fs

  -- `map.len()`.
  abbrev pub size : Fields C → ℕ
  size end = 0
  size (field k v fs) = suc (size fs)

  -- `map.get(key)`.
  abbrev pub get : Fields C → Text → Option (Ipld C)
  get end key = none
  get (field k v fs) key = if text_eq k key then some v else get fs key

  pub of_list-to_list : (vs : Items C) → of_list (to_list vs) ≡ vs
  of_list-to_list nil = refl
  of_list-to_list (cons v vs) = ap (cons v) (of_list-to_list vs)

  pub to_list-of_list : (vs : List (Ipld C)) → to_list (of_list vs) ≡ vs
  to_list-of_list [] = refl
  to_list-of_list (v ∷ vs) = ap (λ r. v ∷ r) (to_list-of_list vs)

  -- The entries of a map, in its order.
  abbrev pub entries : Fields C → List (Text × Ipld C)
  entries end = []
  entries (field k v fs) = (k, v) ∷ entries fs

  abbrev pub of_entries : List (Text × Ipld C) → Fields C
  of_entries [] = end
  of_entries ((k, v) ∷ es) = field k v (of_entries es)

  pub of_entries-entries : (fs : Fields C) → of_entries (entries fs) ≡ fs
  of_entries-entries end = refl
  of_entries-entries (field k v fs) = ap (field k v) (of_entries-entries fs)

  pub entries-of_entries : (es : List (Text × Ipld C)) → entries (of_entries es) ≡ es
  entries-of_entries [] = refl
  entries-of_entries ((k, v) ∷ es) = ap (λ r. (k, v) ∷ r) (entries-of_entries es)
