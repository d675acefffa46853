-- ===== src/Policy/Number.antt =====
-- src/policy/mod.rs: numbers in a comparison, and deep equality.
use pq_ucan.Base.{
  suc, ◌≡◌, refl, arith, ℕ, Bool, true, false, not, ◌&&◌, ◌==◌, if◌then◌else◌, ℤ, Option, none,
  some, compare_ℤ, Ordering, text_eq,
}
use pq_ucan.Float
use pq_ucan.Ipld.{
  Ipld, Items, Fields, null, bool, string, bytes, list, map, link, nil, cons, end, field, size, get,
}

pub data Number : Type 0 where
  integer : ℤ → Number
  float : ℕ → Number

unfoldable pub reverse : Ordering → Ordering
reverse Ordering.lt = Ordering.gt
reverse Ordering.eq = Ordering.eq
reverse Ordering.gt = Ordering.lt

abbrev pub map_reverse : Option Ordering → Option Ordering
map_reverse none = none
map_reverse (some o) = some (reverse o)

-- The comparison where the float is integral, and where it is not or is out of range.
unfoldable pub int_float : ℤ → ℕ → Option Ordering
unfolding Float.is_finite Float.lt Float.to_i128 Float.eq Float.from_i128 Float.partial_cmp
int_float i f =
    if not (Float.is_finite f)
    then none
    else if Float.lt Float.minus_ten_to_38 f
        && Float.lt f Float.ten_to_38
        && Float.eq (Float.from_i128 (Float.to_i128 f)) f
    then some (compare_ℤ i (Float.to_i128 f))
    else Float.partial_cmp (Float.from_i128 i) f

unfoldable pub partial_cmp : Number → Number → Option Ordering
unfolding int_float reverse
partial_cmp (Number.integer a) (Number.integer b) = some (compare_ℤ a b)
partial_cmp (Number.float a) (Number.float b) = Float.partial_cmp a b
partial_cmp (Number.integer a) (Number.float b) = int_float a b
partial_cmp (Number.float a) (Number.integer b) = map_reverse (int_float b a)

abbrev pub is_equal : Option Ordering → Bool
is_equal o = elim o [ some Ordering.eq ↦ true | _ ↦ false ]

-- The first arm of `equal`.
abbrev pub numbers_equal : Option Number → Option Number → Bool
numbers_equal (some x) (some y) = is_equal (partial_cmp x y)
numbers_equal _ _ = false

module _ {C : Type 0} where
  unfoldable pub from_ipld : Ipld C → Option Number
  from_ipld (Ipld.integer i) = some (Number.integer i)
  from_ipld (Ipld.float f) = some (Number.float f)
  from_ipld _ = none

  unfoldable pub to_ipld : Number → Ipld C
  to_ipld (Number.integer i) = Ipld.integer i
  to_ipld (Number.float f) = Ipld.float f

  pub to_ipld-from_ipld : (v : Ipld C) (n : Number) → from_ipld v ≡ some n → to_ipld n ≡ v
  unfolding from_ipld to_ipld
  to_ipld-from_ipld (Ipld.integer i) n h = ground arith
  to_ipld-from_ipld (Ipld.float f) n h = ground arith
  to_ipld-from_ipld _ n h = cc

  abbrev pub as_list : Ipld C → Option (Items C)
  as_list (list ys) = some ys
  as_list _ = none

  abbrev pub as_map : Ipld C → Option (Fields C)
  as_map (map ys) = some ys
  as_map _ = none

  abbrev pub length : Items C → ℕ
  length nil = 0
  length (cons v vs) = suc (length vs)

pub from_ipld-to_ipld : (C : Type 0) (n : Number) → from_ipld {C = C} (to_ipld n) ≡ some n
unfolding from_ipld to_ipld
from_ipld-to_ipld C (Number.integer i) = refl
from_ipld-to_ipld C (Number.float f) = refl

-- `PartialEq` of `ipld-core` on the kinds that the last arm of `equal` leaves: a value of another kind
-- is different, and within a kind the contents are compared. `same_cid` is the equality of its CIDs.
module _ {C : Type 0} (same_cid : C → C → Bool) where
  abbrev pub same_leaf : Ipld C → Ipld C → Bool
  same_leaf null null = true
  same_leaf (bool true) (bool b) = b
  same_leaf (bool false) (bool b) = not b
  same_leaf (string s) (string t) = text_eq s t
  same_leaf (bytes s) (bytes t) = text_eq s t
  same_leaf (link c) (link d) = same_cid c d
  same_leaf _ _ = false

  unfoldable mutual
    pub equal : Ipld C → Ipld C → Bool
    equal (Ipld.integer i) b = numbers_equal (some (Number.integer i)) (from_ipld b)
    equal (Ipld.float f) b = numbers_equal (some (Number.float f)) (from_ipld b)
    equal (list xs) b = elim (as_list b) [
      | some ys ↦ length xs == length ys && equal_items xs ys
      | none ↦ false
    ]
    equal (map xs) b = elim (as_map b) [
      | some ys ↦ size xs == size ys && equal_fields xs ys
      | none ↦ false
    ]
    equal a b = same_leaf a b

    -- `x.iter().zip(y).all(...)`
    pub equal_items : Items C → Items C → Bool
    equal_items nil ys = true
    equal_items (cons x xs) nil = true
    equal_items (cons x xs) (cons y ys) = equal x y && equal_items xs ys

    -- `x.iter().all(...)` over the entries, looked up in the other map.
    pub equal_fields : Fields C → Fields C → Bool
    equal_fields end ys = true
    equal_fields (field k v xs) ys = elim (get ys k) [
      | some w ↦ equal v w && equal_fields xs ys
      | none ↦ false
    ]
