-- ===== src/Codec/Order.antt =====
-- The orders on map keys: bytewise, as in a `BTreeMap`, and `canonical_order` of src/codec/decode.rs,
-- which src/codec/encode.rs sorts by.
use pq_ucan.Base.{compare, Ordering, ◌≡◌, refl, [], ◌∷◌, length, Bytes, Text, utf8, arith}

-- `Ordering::then_with`.
abbrev pub then_order : Ordering → Ordering → Ordering
then_order Ordering.eq later = later
then_order first later = first

-- `<[u8]>::cmp`.
unfoldable pub byte_order : Bytes → Bytes → Ordering
byte_order [] [] = Ordering.eq
byte_order [] (y ∷ ys) = Ordering.lt
byte_order (x ∷ xs) [] = Ordering.gt
byte_order (x ∷ xs) (y ∷ ys) = then_order (compare x y) (byte_order xs ys)

-- Shorter first, then bytewise.
unfoldable pub canonical_bytes : Bytes → Bytes → Ordering
unfolding byte_order
canonical_bytes a b = then_order (compare (length a) (length b)) (byte_order a b)

unfoldable pub canonical_order : Text → Text → Ordering
unfolding canonical_bytes
canonical_order a b = canonical_bytes (utf8 a) (utf8 b)

-- A strict total order, as a comparison.
pub record IsOrder (order : Bytes → Bytes → Ordering) : Type 0 where
  pub same : (a : Bytes) → order a a ≡ Ordering.eq
  pub equal : (a b : Bytes) → order a b ≡ Ordering.eq → a ≡ b
  pub flip_lt : (a b : Bytes) → order a b ≡ Ordering.lt → order b a ≡ Ordering.gt
  pub flip_gt : (a b : Bytes) → order a b ≡ Ordering.gt → order b a ≡ Ordering.lt
  pub trans :
      (a b c : Bytes) → order a b ≡ Ordering.lt → order b c ≡ Ordering.lt → order a c ≡ Ordering.lt

byte_order-same : (a : Bytes) → byte_order a a ≡ Ordering.eq
unfolding byte_order
byte_order-same [] = refl
byte_order-same (x ∷ xs) = ground (arith, byte_order-same xs)

byte_order-equal : (a b : Bytes) → byte_order a b ≡ Ordering.eq → a ≡ b
unfolding byte_order
byte_order-equal [] [] h = refl
byte_order-equal [] (y ∷ ys) h = cc
byte_order-equal (x ∷ xs) [] h = cc
byte_order-equal (x ∷ xs) (y ∷ ys) h = ground (arith, byte_order-equal xs ys)

byte_order-flip_lt : (a b : Bytes) → byte_order a b ≡ Ordering.lt → byte_order b a ≡ Ordering.gt
unfolding byte_order
byte_order-flip_lt [] [] h = cc
byte_order-flip_lt [] (y ∷ ys) h = refl
byte_order-flip_lt (x ∷ xs) [] h = cc
byte_order-flip_lt (x ∷ xs) (y ∷ ys) h = ground (arith, byte_order-flip_lt xs ys)

byte_order-flip_gt : (a b : Bytes) → byte_order a b ≡ Ordering.gt → byte_order b a ≡ Ordering.lt
unfolding byte_order
byte_order-flip_gt [] [] h = cc
byte_order-flip_gt [] (y ∷ ys) h = cc
byte_order-flip_gt (x ∷ xs) [] h = refl
byte_order-flip_gt (x ∷ xs) (y ∷ ys) h = ground (arith, byte_order-flip_gt xs ys)

byte_order_trans :
    (a b c : Bytes)
    → byte_order a b ≡ Ordering.lt
    → byte_order b c ≡ Ordering.lt
    → byte_order a c ≡ Ordering.lt
unfolding byte_order
byte_order_trans [] [] c h k = cc
byte_order_trans [] (y ∷ ys) [] h k = cc
byte_order_trans [] (y ∷ ys) (z ∷ zs) h k = refl
byte_order_trans (x ∷ xs) [] c h k = cc
byte_order_trans (x ∷ xs) (y ∷ ys) [] h k = cc
byte_order_trans (x ∷ xs) (y ∷ ys) (z ∷ zs) h k = ground (arith, byte_order_trans xs ys zs)

pub byte_order-IsOrder : IsOrder byte_order
byte_order-IsOrder = record {
  same = byte_order-same;
  equal = byte_order-equal;
  flip_lt = byte_order-flip_lt;
  flip_gt = byte_order-flip_gt;
  trans = byte_order_trans;
}

pub canonical_bytes-IsOrder : IsOrder canonical_bytes
unfolding canonical_bytes
canonical_bytes-IsOrder = record {
  same = λ a. ground (arith, byte_order-same a);
  equal = λ a b h. ground (arith, byte_order-equal a b);
  flip_lt = λ a b h. ground (arith, byte_order-flip_lt a b);
  flip_gt = λ a b h. ground (arith, byte_order-flip_gt a b);
  trans = λ a b c h k. ground (arith, byte_order_trans a b c);
}
