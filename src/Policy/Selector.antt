-- ===== src/Policy/Selector.antt =====
-- src/policy/selector.rs: the data and `resolve`. The parser is in Policy/Selector/Parse.antt.
mod Kinds
pub mod Parse
pub mod Laws
pub mod Resolve
pub mod Scan
pub mod Total
pub use Kinds.{Kind, Segment, key, values, index, slice}
use pq_ucan.Base.{
  ℕ, suc, ◌+◌, ◌-◌, ◌^◌, Bool, true, false, ltb, leb, if◌then◌else◌, ℤ, pos, negsuc, List, [], ◌∷◌,
  Option, none, some, take, drop, length, get_elem?, Text,
}
use pq_ucan.Ipld
use pq_ucan.Ipld.{Ipld, Items, null, list, map, bytes, to_list, of_list, get}

-- The segments, and the text that they were read from.
pub record Selector : Type 0 where
  pub text : Text
  pub segments : List Segment

-- `identity`.
abbrev pub identity : Selector
identity = record { text = b'.' ∷ []; segments = [] }

abbrev pub usize_max : ℕ
usize_max = 2 ^ 64 - 1

-- `usize::try_from`, where a `usize` has 64 bits.
abbrev pub to_usize : ℕ → Option ℕ
to_usize n = if leb n usize_max then some n else none

-- A position counted from the end for a negative number, if it is in range.
unfoldable pub index_in : ℕ → ℤ → Option ℕ
index_in len (negsuc n) = elim (to_usize (suc n)) [
  | some back ↦ if leb back len then some (len - back) else none
  | none ↦ none
]
index_in len (pos n) = elim (to_usize n) [
  | some i ↦ if ltb i len then some i else none
  | none ↦ none
]

abbrev pub or_max : Option ℕ → ℕ
or_max (some n) = n
or_max none = usize_max

abbrev pub smaller : ℕ → ℕ → ℕ
smaller a b = if leb a b then a else b

abbrev pub larger : ℕ → ℕ → ℕ
larger a b = if leb a b then b else a

unfoldable pub clamp : ℕ → ℤ → ℕ
clamp len (negsuc n) = len - or_max (to_usize (suc n))
clamp len (pos n) = smaller (or_max (to_usize n)) len

unfoldable pub bounds : ℕ → Option ℤ → Option ℤ → ℕ × ℕ
unfolding clamp
bounds len from to =
    let start : ℕ = elim from [ none ↦ 0 | some i ↦ clamp len i ] in
    let finish : ℕ = elim to [ none ↦ len | some i ↦ clamp len i ] in (start, larger finish start)

-- `slice.get(s..e)`.
unfoldable pub get_range {ℓ} : {A : Type ℓ} → List A → ℕ → ℕ → Option (List A)
get_range xs s e =
    if leb s e then if leb e (length xs) then some (take (e - s) (drop s xs)) else none else none

abbrev pub at_index {ℓ} : {A : Type ℓ} → List A → ℤ → Option A
at_index xs i = elim (index_in (length xs) i) [ some n ↦ get_elem? xs n | none ↦ none ]

abbrev pub sliced {ℓ} : {A : Type ℓ} → List A → Option ℤ → Option ℤ → Option (List A)
sliced xs from to = let (s, e) = bounds (length xs) from to in get_range xs s e

module _ {C : Type 0} where
  abbrev pub or_null : Option (Ipld C) → Ipld C
  or_null (some v) = v
  or_null none = null

  -- The arms of `step`, by the kind of segment.
  abbrev pub step_key : Text → Ipld C → Option (Ipld C)
  step_key k (map fs) = some (or_null (get fs k))
  step_key k _ = none

  abbrev pub step_values : Ipld C → Option (Ipld C)
  step_values (list vs) = some (list vs)
  step_values (map fs) = some (list (of_list (Ipld.values fs)))
  step_values _ = none

  abbrev pub byte_value : ℕ → Ipld C
  byte_value b = Ipld.integer (pos b)

  abbrev pub step_index : ℤ → Ipld C → Option (Ipld C)
  step_index i (list vs) = at_index (to_list vs) i
  step_index i (bytes bs) = elim (at_index bs i) [ some b ↦ some (byte_value b) | none ↦ none ]
  step_index i _ = none

  abbrev pub step_slice : Option ℤ → Option ℤ → Ipld C → Option (Ipld C)
  step_slice from to (list vs) = elim (sliced (to_list vs) from to) [
    | some r ↦ some (list (of_list r))
    | none ↦ none
  ]
  step_slice from to (bytes bs) = elim (sliced bs from to) [ some r ↦ some (bytes r) | none ↦ none ]
  step_slice from to _ = none

  unfoldable pub step : Ipld C → Kind → Option (Ipld C)
  unfolding index_in bounds get_range
  step value (key k) = step_key k value
  step value values = step_values value
  step value (index i) = step_index i value
  step value (slice from to) = step_slice from to value

  -- The loop of `resolve`: a failing segment ends it, with `null` if it is optional.
  unfoldable pub resolve_from : Ipld C → List Segment → Option (Ipld C)
  unfolding step
  resolve_from current [] = some current
  resolve_from current (segment ∷ segments) = elim (step current segment.kind) [
    | some value ↦ resolve_from value segments
    | none ↦ if segment.optional then some null else none
  ]

  unfoldable pub resolve : Selector → Ipld C → Option (Ipld C)
  unfolding resolve_from
  resolve s root = resolve_from root s.segments
