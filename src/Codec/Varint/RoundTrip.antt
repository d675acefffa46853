-- ===== src/Codec/Varint/RoundTrip.antt =====
-- src/codec/varint.rs: varints written and read back, and read and written again.
use pq_ucan.Base.{
  ℕ, zero, suc, ◌+◌, ◌*◌, ◌/◌, ◌%◌, ◌^◌, ◌≤◌, ◌<◌, ◌≡◌, refl, sym, ap, ap₂, ◌≢◌, ◌∙◌, leb, ◌⊎◌,
  true, false, ltb, ◌==◌, ◌&&◌, [], ◌∷◌, ◌++◌, take, length, length-append, Bytes, All, ok, arith,
  Bool-cases, inl, inr, ok-injective,
}
use pq_ucan.Codec.Heads.{IsByte}
use pq_ucan.Codec.Varint.{put_groups, put_uvarint, last_group, read_groups, read_uvarint}

at_most_cases : (a b : ℕ) → (a ≤ b) ⊎ (b < a)
at_most_cases a b = elim (Bool-cases (leb a b)) [
  | inl h ↦ inl (ground arith)
  | inr h ↦ inr (ground arith)
]

-- The lowest group of a number, at a place.
lowest_group : (v k : ℕ) → v % 128 * k + v / 128 * (128 * k) ≡ v * k
lowest_group v k =
    let split : v ≡ v % 128 + v / 128 * 128 = omega arith in
    let scaled : v * k ≡ (v % 128 + v / 128 * 128) * k = ap (λ n. n * k) split in
    omega (arith, scaled)

next_place : (i : ℕ) → 128 ^ suc i ≡ 128 * 128 ^ i
next_place i = omega arith

read_last :
    (left i value byte len : ℕ) (bytes : Bytes)
    → byte < 128
    → (i ≡ 9 → byte ≤ 1)
    → (1 ≤ i → 1 ≤ byte)
    → read_groups (suc left) i value len (byte ∷ bytes) ≡ ok (value + byte * 128 ^ i, i + 1)
unfolding read_groups
read_last left i value byte len bytes small ninth pos =
    let whole : byte % 128 ≡ byte = omega (arith, small) in
    let allowed : (i == 9 && ltb 1 byte) ≡ false = ground (arith, ninth) in
    let ends : ltb byte 128 ≡ true = ground arith in
    let minimal : (ltb 0 i && byte == 0) ≡ false = ground (arith, pos) in
    rw (whole, allowed, ends, minimal) refl

read_more :
    (left i value byte len : ℕ) (bytes : Bytes)
    → 128 ≤ byte
    → i ≢ 9
    → read_groups (suc left) i value len (byte ∷ bytes)
      ≡ read_groups left (suc i) (value + byte % 128 * 128 ^ i) len bytes
unfolding read_groups
read_more left i value byte len bytes large other =
    let allowed : (i == 9 && ltb 1 byte) ≡ false = ground arith in
    let goes_on : ltb byte 128 ≡ false = ground arith in rw (allowed, goes_on) refl

put_last : (fuel v : ℕ) → v < 128 → put_groups (suc fuel) v ≡ v ∷ []
unfolding put_groups
put_last fuel v small =
    let last : v / 128 == 0 ≡ true = ground arith in
    let whole : v % 128 ≡ v = omega (arith, small) in rw (last, whole) refl

put_more :
    (fuel v : ℕ) → 128 ≤ v → put_groups (suc fuel) v ≡ (v % 128 + 128) ∷ put_groups fuel (v / 128)
unfolding put_groups
put_more fuel v large = let goes_on : v / 128 == 0 ≡ false = ground arith in rw goes_on refl

-- At the tenth byte one bit is left.
ninth_bit : (v i : ℕ) → v * 128 ^ i < 2 ^ 64 → i ≡ 9 → v ≤ 1
ninth_bit v i fits is = let fits' : v * 128 ^ 9 < 2 ^ 64 = rw is at fits in omega (arith, fits')

no_groups_left : (v i : ℕ) → v * 128 ^ i < 2 ^ 64 → i ≡ 10 → v ≡ 0
no_groups_left v i fits is =
    let fits' : v * 128 ^ 10 < 2 ^ 64 = rw is at fits in omega (arith, fits')

fits_next : (v i : ℕ) → v * 128 ^ i < 2 ^ 64 → v / 128 * 128 ^ suc i < 2 ^ 64
fits_next v i fits = rw (next_place i) (omega (arith, fits, lowest_group v (128 ^ i)))

read_groups-put_groups :
    (left i value v len : ℕ) (rest : Bytes)
    → left + i ≡ 10
    → v * 128 ^ i < 2 ^ 64
    → (1 ≤ i → 1 ≤ v)
    → read_groups left i value len (put_groups left v ++ rest)
      ≡ ok (value + v * 128 ^ i, i + length (put_groups left v))
read_groups-put_groups zero i value v len rest total fits pos =
    absurd
      (omega (arith, no_groups_left v i fits (omega (arith, total)), pos (omega (arith, total))))
read_groups-put_groups (suc left) i value v len rest total fits pos = elim (at_most_cases 128 v) [
  | inr small ↦
      ap (λ l. read_groups (suc left) i value len (l ++ rest)) (put_last left v small)
      ∙ read_last left i value v len rest small (ninth_bit v i fits) pos
      ∙ ap (λ l. ok (value + v * 128 ^ i, i + length l)) (sym (put_last left v small))
  | inl large ↦
      let byte = v % 128 + 128 in
      let later = put_groups left (v / 128) in
      let low : byte % 128 ≡ v % 128 = omega arith in
      let sum : value + byte % 128 * 128 ^ i + v / 128 * 128 ^ suc i ≡ value + v * 128 ^ i =
        rw (low, next_place i) (omega (arith, lowest_group v (128 ^ i))) in
      let count : suc i + length later ≡ i + suc (length later) = omega arith in
      ap (λ l. read_groups (suc left) i value len (l ++ rest)) (put_more left v large)
      ∙ read_more left i value byte len (later ++ rest) (omega arith)
          (λ is. absurd (omega (arith, large, ninth_bit v i fits is)))
      ∙ read_groups-put_groups left (suc i) (value + byte % 128 * 128 ^ i) (v / 128) len rest
          (omega (arith, total)) (fits_next v i fits) (λ _. omega (arith, large))
      ∙ ap₂ (λ n k. ok (n, k)) sum count
      ∙ ap (λ l. ok (value + v * 128 ^ i, i + length l)) (sym (put_more left v large))
]

-- A number of 64 bits is read back, with the length of what was written, whatever follows.
pub read_uvarint-put_uvarint :
    (v : ℕ) (rest : Bytes)
    → v < 2 ^ 64
    → read_uvarint (put_uvarint v ++ rest) ≡ ok (v, length (put_uvarint v))
unfolding read_uvarint put_uvarint
read_uvarint-put_uvarint v rest fits =
    let value : 0 + v * 128 ^ 0 ≡ v = omega arith in
    let count : 0 + length (put_groups 10 v) ≡ length (put_groups 10 v) = omega arith in
    read_groups-put_groups 10 0 0 v (length (put_groups 10 v ++ rest)) rest (omega arith)
      (omega (arith, fits)) (λ h. absurd (omega (arith, h)))
    ∙ ap₂ (λ n k. ok (n, k)) value count

-- What was read: `v` was added at the byte `i`, in `used`.
record Groups (left i value : ℕ) (bytes : Bytes) (v n : ℕ) : Type 0 where
  w : ℕ
  used : Bytes
  rest : Bytes
  split : bytes ≡ used ++ rest
  count : n ≡ i + length used
  total : v ≡ value + w * 128 ^ i
  written : put_groups left w ≡ used
  minimal : 1 ≤ i → 1 ≤ w

last_group-Groups :
    (left i value byte : ℕ) (bytes : Bytes) (v n : ℕ)
    → byte < 128
    → last_group i byte (value + byte % 128 * 128 ^ i) ≡ ok (v, n)
    → Groups (suc left) i value (byte ∷ bytes) v n
last_group-Groups left i value byte bytes v n small h = elim (Bool-cases (ltb 0 i && byte == 0)) [
  | inl refused ↦ ground arith
  | inr minimal ↦
      let whole : byte % 128 ≡ byte = omega (arith, small) in
      let same : (value + byte % 128 * 128 ^ i, i + 1) ≡ (v, n) = ok-injective (rw minimal at h) in
      record {
        w = byte;
        used = byte ∷ [];
        rest = bytes;
        split = refl;
        count = sym (ap (λ p. p.1) same);
        total = sym (ap (λ p. p.0) same) ∙ ap (λ k. value + k * 128 ^ i) whole;
        written = put_last left byte small;
        minimal = λ later. ground arith;
      }
]

more-Groups :
    (left i value byte : ℕ) (bytes : Bytes) (v n : ℕ)
    → byte < 256
    → 128 ≤ byte
    → Groups left (suc i) (value + byte % 128 * 128 ^ i) bytes v n
    → Groups (suc left) i value (byte ∷ bytes) v n
more-Groups left i value byte bytes v n is_byte large g =
    let w = byte % 128 + 128 * g.w in
    let above : 1 ≤ g.w = g.minimal (omega arith) in
    let high : w / 128 ≡ g.w = omega arith in
    let low : w % 128 + 128 ≡ byte = omega (arith, is_byte, large) in
    let place : byte % 128 * 128 ^ i + g.w * (128 * 128 ^ i) ≡ w * 128 ^ i = omega arith in
    let total : v ≡ value + byte % 128 * 128 ^ i + g.w * (128 * 128 ^ i) =
      g.total ∙ ap (λ k. value + byte % 128 * 128 ^ i + g.w * k) (next_place i) in
    record {
      w = w;
      used = byte ∷ g.used;
      rest = g.rest;
      split = ap (λ l. byte ∷ l) g.split;
      count = omega (arith, g.count);
      total = omega (arith, total, place);
      written =
          put_more left w (omega (arith, above))
          ∙ ap₂ (λ b l. b ∷ l) low (ap (put_groups left) high ∙ g.written);
      minimal = λ later. omega (arith, above);
    }

read_groups-eq-ok :
    (left i value len : ℕ) (bytes : Bytes) (v n : ℕ)
    → All IsByte bytes
    → read_groups left i value len bytes ≡ ok (v, n)
    → Groups left i value bytes v n
unfolding read_groups
read_groups-eq-ok zero i value len bytes v n all h = ground arith
read_groups-eq-ok (suc left) i value len [] v n all h = ground arith
read_groups-eq-ok (suc left) i value len (byte ∷ bytes) v n all h =
    elim (Bool-cases (i == 9 && ltb 1 byte)) [
      | inl refused ↦ ground arith
      | inr allowed ↦ elim (Bool-cases (ltb byte 128)) [
        | inl ends ↦
            last_group-Groups left i value byte bytes v n (ground arith) (rw (allowed, ends) at h)
        | inr goes_on ↦ more-Groups left i value byte bytes v n all.0 (ground arith) (
            read_groups-eq-ok left (suc i) (value + byte % 128 * 128 ^ i) len bytes v n all.1
              (rw (allowed, goes_on) at h))
      ]
    ]

cons_not_nil : {b : ℕ} {l : Bytes} → (b ∷ l) ≢ []
cons_not_nil h = cc

take_front : (xs ys : Bytes) → take (length xs) (xs ++ ys) ≡ xs
take_front [] ys = refl
take_front (x ∷ xs) ys = ap (λ l. x ∷ l) (take_front xs ys)

-- What was read are the bytes that `put_uvarint` writes for the number, so no number has two forms.
pub read_uvarint-eq-ok :
    (bytes : Bytes) (v n : ℕ)
    → All IsByte bytes
    → read_uvarint bytes ≡ ok (v, n)
    → (take n bytes ≡ put_uvarint v) × (1 ≤ n) × (n ≤ length bytes)
unfolding read_uvarint put_uvarint
read_uvarint-eq-ok bytes v n all h =
    let g = read_groups-eq-ok 10 0 0 (length bytes) bytes v n all h in
    let value : v ≡ g.w = omega (arith, g.total) in
    let count : n ≡ length g.used = omega (arith, g.count) in
    let size : length bytes ≡ length g.used + length g.rest =
      ap length g.split ∙ length-append g.used g.rest in
    (
      ap₂ take count g.split
          ∙ take_front g.used g.rest
          ∙ sym (ap (put_groups 10) value ∙ g.written),
      omega (arith, count, written_pos g.w g.used g.written),
      omega (arith, count, size),
    )
  where
    written_pos : (w : ℕ) (used : Bytes) → put_groups 10 w ≡ used → 1 ≤ length used
    written_pos w [] e = elim (at_most_cases 128 w) [
      | inl large ↦ absurd (cons_not_nil (sym (put_more 9 w large) ∙ e))
      | inr small ↦ absurd (cons_not_nil (sym (put_last 9 w small) ∙ e))
    ]
    written_pos w (b ∷ used) e = omega arith
