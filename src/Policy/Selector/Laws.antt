-- ===== src/Policy/Selector/Laws.antt =====
-- src/policy/selector.rs: what an index and the bounds of a slice select.
use pq_ucan.Base.{
  ℕ, suc, ◌+◌, ◌-◌, ◌≤◌, ◌<◌, ◌≡◌, ◌↔◌, ◌⊎◌, ℤ, pos, negsuc, neg_part, List, Option, none, some,
  take, drop, le→leb, length, length-take_le, length-drop, arith,
}
use pq_ucan.Policy.Selector.{usize_max, index_in, clamp, bounds, get_range, sliced}

-- For a length that a `usize` can hold, an index is accepted exactly where it names an element: the
-- result is below the length, and is the number itself, or is that many elements from the end.
pub index_in_iff :
    (len n : ℕ) (i : ℤ)
    → len ≤ usize_max
    → (index_in len i ≡ some n) ↔ ((n < len) × ((i ≡ pos n) ⊎ (neg_part i + n ≡ len)))
unfolding index_in
index_in_iff len n (pos k) h = ground arith
index_in_iff len n (negsuc k) h = ground arith

clamp-le : (len : ℕ) (i : ℤ) → clamp len i ≤ len
unfolding clamp
clamp-le len (pos k) = ground arith
clamp-le len (negsuc k) = ground arith

bounds-in :
    (len : ℕ) (from to : Option ℤ)
    → ((bounds len from to).0 ≤ (bounds len from to).1) × ((bounds len from to).1 ≤ len)
unfolding bounds
bounds-in len none none = ground arith
bounds-in len none (some j) = unfold clamp in ground (arith, clamp-le len j)
bounds-in len (some i) none = ground (arith, clamp-le len i)
bounds-in len (some i) (some j) = ground (arith, clamp-le len i, clamp-le len j)

get_range-some {ℓ} :
    {A : Type ℓ} (xs : List A) (s e : ℕ)
    → s ≤ e
    → e ≤ length xs
    → get_range xs s e ≡ some (take (e - s) (drop s xs))
unfolding get_range
get_range-some xs s e h k = rw (le→leb s e h, le→leb e (length xs) k)

-- Where a slice with these bounds starts and ends, as its numbers say it: at or behind `i` elements
-- from the start, or that many from the end for a negative number.
abbrev pub IsFrom : ℕ → Option ℤ → ℕ → Type 0
IsFrom len none k = Unit
IsFrom len (some (pos n)) k = n ≤ k
IsFrom len (some (negsuc n)) k = len ≤ k + suc n

abbrev pub IsTo : ℕ → Option ℤ → ℕ → Type 0
IsTo len none k = Unit
IsTo len (some (pos n)) k = k < n
IsTo len (some (negsuc n)) k = k + suc n < len

abbrev pub Selects : ℕ → Option ℤ → Option ℤ → ℕ → Type 0
Selects len from to k = (k < len) × IsFrom len from k × IsTo len to k

clamp-IsFrom :
    (len k : ℕ) (i : ℤ) → len ≤ usize_max → k < len → (clamp len i ≤ k) ↔ IsFrom len (some i) k
unfolding clamp
clamp-IsFrom len k (pos n) h b = ground arith
clamp-IsFrom len k (negsuc n) h b = ground arith

clamp-IsTo :
    (len k : ℕ) (i : ℤ) → len ≤ usize_max → k < len → (k < clamp len i) ↔ IsTo len (some i) k
unfolding clamp
clamp-IsTo len k (pos n) h b = ground arith
clamp-IsTo len k (negsuc n) h b = ground arith

bounds_iff :
    (len : ℕ) (from to : Option ℤ) (k : ℕ)
    → len ≤ usize_max
    → k < len
    → (((bounds len from to).0 ≤ k) × (k < (bounds len from to).1))
      ↔ (IsFrom len from k × IsTo len to k)
unfolding bounds
bounds_iff len none none k h b = ground arith
bounds_iff len none (some j) k h b = ground (arith, clamp-IsTo len k j h b)
bounds_iff len (some i) none k h b = ground (arith, clamp-IsFrom len k i h b)
bounds_iff len (some i) (some j) k h b =
    ground (arith, clamp-IsFrom len k i h b, clamp-IsTo len k j h b)

-- On a sequence that a `usize` can count, a slice does not fail: it yields the elements between two
-- positions, in their order, and these are exactly the positions in the sequence that the bounds
-- select, where a missing bound selects all, a bound from 0 on counts from the start and a negative
-- one from the end. Bounds out of range cut nothing off or leave nothing.
pub sliced_iff {ℓ} :
    {A : Type ℓ} (xs : List A) (from to : Option ℤ)
    → length xs ≤ usize_max
    → (s : ℕ) × (e : ℕ) × (sliced xs from to ≡ some (take (e - s) (drop s xs)))
      × (length (take (e - s) (drop s xs)) ≡ e - s)
      × ((k : ℕ) → ((s ≤ k) × (k < e)) ↔ Selects (length xs) from to k)
sliced_iff xs from to fits =
    let (order, inside) = bounds-in (length xs) from to in
    let (s, e) = bounds (length xs) from to in
    (
      s,
      e,
      get_range-some xs s e order inside,
      length-take_le (e - s) (drop s xs) (omega (arith, length-drop s xs)),
      λ k. (
        λ h.
            let within : k < length xs = omega (arith, inside, h.1) in
            let sides = (bounds_iff (length xs) from to k fits within).0 h in
            (within, sides.0, sides.1),
        λ h. (bounds_iff (length xs) from to k fits h.0).1 (h.1, h.2),
      ),
    )
