-- ===== src/Codec/Heads.antt =====
-- src/codec: item heads and byte ranges, written and read back.
pub mod Inverse
use pq_ucan.Base.{
  ℕ, zero, suc, ◌+◌, ◌-◌, ◌*◌, ◌/◌, ◌%◌, ◌^◌, ◌≤◌, ◌<◌, ◌≡◌, refl, sym, ap, subst, ◌∙◌, Bool, true,
  false, not, leb, ltb, ◌==◌, if◌then◌else◌, List, [], ◌∷◌, ◌++◌, append_assoc, Option, none, some,
  take, drop, length, length-append, length-take_le, Bytes, All, arith, Result, ok, err, ◌>>=◌,
  ◌>>◌, >>=-eq-ok, ok-injective, Bool-cases, inl, inr,
}
use native.Mathlib.Numerals.{towards_suc}
use pq_ucan.Codec.Reader
use pq_ucan.Codec.Reader.{
  Reader, Head, byte, take_bytes, from_be_bytes, fixed_argument, byte_argument, argument,
  checked_add,
}
use pq_ucan.Codec.Encode
use pq_ucan.Codec.Encode.{to_be_bytes}
use pq_ucan.Policy.Selector.{to_usize}

abbrev pub IsByte : ℕ → Type 0
IsByte b = b < 256

abbrev pub cursor : Bytes → ℕ → Reader
cursor bytes at = record { rest = bytes; pos = at }

from_be_bytes-append :
    (n : ℕ) (bs cs : Bytes) → from_be_bytes n (bs ++ cs) ≡ from_be_bytes (from_be_bytes n bs) cs
from_be_bytes-append n [] cs = refl
from_be_bytes-append n (b ∷ bs) cs = from_be_bytes-append (n * 256 + b) bs cs

pub length-to_be_bytes : (n v : ℕ) → length (to_be_bytes n v) ≡ n
length-to_be_bytes zero v = refl
length-to_be_bytes (suc n) v = omega (
  arith,
  length-append (to_be_bytes n (v / 256)) ((v % 256) ∷ []),
  length-to_be_bytes n (v / 256),
)

byte_more : (n v : ℕ) → v < 256 ^ suc n → v / 256 < 256 ^ n
byte_more n v h = let grown : 256 ^ suc n ≡ 256 * 256 ^ n = omega arith in omega (arith, grown)

pub from_be_bytes-to_be_bytes : (n v : ℕ) → v < 256 ^ n → from_be_bytes 0 (to_be_bytes n v) ≡ v
from_be_bytes-to_be_bytes zero v h = omega arith
from_be_bytes-to_be_bytes (suc n) v h =
    from_be_bytes-append 0 (to_be_bytes n (v / 256)) ((v % 256) ∷ [])
    ∙ omega (arith, from_be_bytes-to_be_bytes n (v / 256) (byte_more n v h))

take-append : (xs ys : Bytes) → take (length xs) (xs ++ ys) ≡ xs
take-append [] ys = refl
take-append (x ∷ xs) ys = ap (λ l. x ∷ l) (take-append xs ys)

drop-append : (xs ys : Bytes) → drop (length xs) (xs ++ ys) ≡ ys
drop-append [] ys = refl
drop-append (x ∷ xs) ys = drop-append xs ys

take-drop : (n : ℕ) (xs : Bytes) → xs ≡ take n xs ++ drop n xs
take-drop zero xs = refl
take-drop (suc n) [] = refl
take-drop (suc n) (x ∷ xs) = ap (λ l. x ∷ l) (take-drop n xs)

pub take_bytes-append :
    (bytes rest : Bytes) (at : ℕ)
    → at + length bytes < 2 ^ 64
    → take_bytes (length bytes) (cursor (bytes ++ rest) at)
      ≡ ok (bytes, cursor rest (at + length bytes))
unfolding take_bytes
take_bytes-append bytes rest at h =
    ground (arith, take-append bytes rest, drop-append bytes rest, length-append bytes rest)

-- What `take_bytes` takes is the front of what is unread.
pub take_bytes-eq-ok :
    (n at : ℕ) (unread got : Bytes) (r : Reader)
    → take_bytes n (cursor unread at) ≡ ok (got, r)
    → (unread ≡ got ++ r.rest) × (length got ≡ n) × (n < 2 ^ 64)
unfolding take_bytes
take_bytes-eq-ok n at unread got r h = ground (arith, take-drop n unread, length-take_le n unread)

pub byte-cons :
    (b : ℕ) (bs : Bytes) (at : ℕ) → byte (cursor (b ∷ bs) at) ≡ ok (b, cursor bs (at + 1))
unfolding byte
byte-cons b bs at = refl

-- An argument in `n` bytes, written behind the additional information of the head.
fixed_argument-append :
    (n least v : ℕ) (rest : Bytes) (at : ℕ)
    → least ≤ v
    → v < 256 ^ n
    → n < 9
    → at + n < 2 ^ 64
    → fixed_argument n least (cursor (to_be_bytes n v ++ rest) at) ≡ ok (v, cursor rest (at + n))
fixed_argument-append n least v rest at low high small room =
    let written = to_be_bytes n v in
    let size = length-to_be_bytes n v in
    let taken = take_bytes-append written rest at (omega (arith, size)) in
    let read = from_be_bytes-to_be_bytes n v high in
    let taken' : take_bytes n (cursor (written ++ rest) at) ≡ ok (written, cursor rest (at + n)) =
      subst (λ k. take_bytes k (cursor (written ++ rest) at) ≡ ok (written, cursor rest (at + k)))
        size taken in
    rw taken' (rw read (ground arith))

head_of :
    (major info v : ℕ) (extra rest : Bytes) (at : ℕ)
    → major < 7
    → info < 32
    → argument info (cursor (extra ++ rest) (at + 1)) ≡ ok (v, cursor rest (at + 1 + length extra))
    → Reader.head (cursor ((major * 32 + info) ∷ (extra ++ rest)) at)
      ≡ ok (record { major = major; arg = v }, cursor rest (at + suc (length extra)))
unfolding Reader.head byte
head_of major info v extra rest at hm hi read =
    let e1 : (major * 32 + info) / 32 ≡ major = omega arith in
    let e2 : (major * 32 + info) % 32 ≡ info = omega arith in
    let e3 : at + 1 + length extra ≡ at + suc (length extra) = omega arith in
    rw (e1, e2, read) (rw e3 (ground arith))

-- A head is read back as it was written, whatever follows it.
pub head-append :
    (major v : ℕ) (rest : Bytes) (at : ℕ)
    → major < 7
    → v < 2 ^ 64
    → at + 9 < 2 ^ 64
    → Reader.head (cursor (Encode.head major v ++ rest) at)
      ≡ ok (record { major = major; arg = v }, cursor rest (at + length (Encode.head major v)))
unfolding Encode.head
head-append major v rest at hm hv room = elim (Bool-cases (leb v 23)) [
  | inl tiny ↦
      rw tiny (head_of major v v [] rest at hm (ground arith) (unfold argument in ground arith))
  | inr more ↦ elim (Bool-cases (leb v 0xff)) [
    | inl one ↦
        rw (more, one)
          (head_of major 24 v (to_be_bytes 1 v) rest at hm (omega arith)
            (unfold argument in ground arith))
    | inr more1 ↦ elim (Bool-cases (leb v 0xffff)) [
      | inl two ↦
          rw (more, more1, two)
            (head_of major 25 v (to_be_bytes 2 v) rest at hm (omega arith) (
              unfold argument in
              fixed_argument-append 2 0x100 v rest (at + 1) (ground arith) (ground arith)
                (omega arith) (omega arith)))
      | inr more2 ↦ elim (Bool-cases (leb v 0xffffffff)) [
        | inl four ↦
            rw (more, more1, more2, four)
              (head_of major 26 v (to_be_bytes 4 v) rest at hm (omega arith) (
                unfold argument in
                fixed_argument-append 4 0x10000 v rest (at + 1) (ground arith) (ground arith)
                  (omega arith) (omega arith)))
        | inr more3 ↦
            rw (more, more1, more2, more3)
              (head_of major 27 v (to_be_bytes 8 v) rest at hm (omega arith) (
                unfold argument in
                fixed_argument-append 8 0x100000000 v rest (at + 1) (ground arith) (ground arith)
                  (omega arith) (omega arith)))
      ]
    ]
  ]
]
