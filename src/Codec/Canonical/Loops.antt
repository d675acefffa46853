-- ===== src/Codec/Canonical/Loops.antt =====
-- src/codec: the loops over items and over entries, read and written.
use pq_ucan.Base.{
  ℕ, zero, suc, ◌≡◌, refl, sym, ap, subst, ◌∙◌, Ordering, List, [], ◌∷◌, ◌++◌, Option, none, some,
  length, Bytes, Text, utf8, All, arith, Result, ok, >>=-eq-ok, ok-injective, ok_or, ok_or-eq-ok,
  map_err, map_err_iff,
}
use pq_ucan.Ipld.{Ipld, Items, nil, cons, to_list, of_entries}
use pq_ucan.Codec.{CodecError, length_too_large}
use pq_ucan.Codec.Canonical.{Used, parts, bytes_left, read_text-eq-ok}
use pq_ucan.Codec.Decode.{
  Entry, key_bytes, replace, map_insert, key_error, check_order, order_result, read_items,
  read_entries, read_list, read_map,
}
use pq_ucan.Codec.Encode
use pq_ucan.Codec.Encode.{write_items, write_entries, write_list, write_map, in_front, canonical}
use pq_ucan.Codec.Heads.{IsByte}
use pq_ucan.Codec.Heads.Inverse.{Written}
use pq_ucan.Codec.Order.{
  byte_order, byte_order-IsOrder, canonical_bytes, canonical_bytes-IsOrder, canonical_order,
}
use pq_ucan.Codec.Reader.{Reader, Read, read_text}
use pq_ucan.Codec.Sorted.{place_all, IsSorted, IsSorted-IsDistinct}
use pq_ucan.Codec.Sorted.Both.{sort-place_all, place_all-IsSorted, AreFresh-nil}
use pq_ucan.Policy.Selector.{to_usize}

pub to_usize-eq-some : (n m : ℕ) → to_usize n ≡ some m → n ≡ m
to_usize-eq-some n m h = ground arith

module _ {C : Type 0} where
  -- The key of `e` comes behind the previous one.
  abbrev pub Above : Option Text → Entry C → Type 0
  Above none e = Unit
  Above (some p) e = canonical_bytes (utf8 p) (key_bytes e) ≡ Ordering.lt

  check_order-Above :
      (previous : Option Text) (k : Text) (v : Ipld C) {u : Unit {0}}
      → check_order previous k ≡ ok u
      → Above previous (k, v)
  unfolding canonical_order
  check_order-Above none k v h = tt
  check_order-Above (some p) k v h = order_lt (canonical_bytes (utf8 p) (utf8 k)) h
    where
      order_lt : (o : Ordering) {u : Unit {0}} → order_result o ≡ ok u → o ≡ Ordering.lt
      order_lt Ordering.lt h = refl
      order_lt Ordering.eq h = cc
      order_lt Ordering.gt h = cc

  All-Above :
      (previous : Option Text) (k : Text) (v : Ipld C) (es : List (Entry C))
      → Above previous (k, v)
      → All (Above (some k)) es
      → All (Above previous) es
  All-Above previous k v [] above all = tt
  All-Above none k v (e ∷ es) above all = (tt, All-Above none k v es above all.1)
  All-Above (some p) k v (e ∷ es) above all = (
    canonical_bytes-IsOrder.trans (utf8 p) (utf8 k) (key_bytes e) above all.0,
    All-Above (some p) k v es above all.1,
  )

-- Over a reader and a writer of one item.
module _ {C : Type 0} (item : Read (Ipld C)) (write : Ipld C → Result CodecError Bytes)
    (each : (v : Ipld C) (r0 r : Reader)
      → All IsByte r0.rest
      → item r0 ≡ ok (v, r)
      → Used r0.rest r (write v)) where
  read_items-eq-ok :
      (n : ℕ) (vs : Items C) (r0 r : Reader)
      → All IsByte r0.rest
      → read_items item n r0 ≡ ok (vs, r)
      → Used r0.rest r (write_items write (to_list vs)) × (length (to_list vs) ≡ n)
  read_items-eq-ok zero vs r0 r all h =
      let same : (nil, r0) ≡ (vs, r) = ok-injective h in
      subst
        (λ (p : Items C × Reader).
          Used r0.rest p.1 (write_items write (to_list p.0)) × (length (to_list p.0) ≡ 0))
        same (record { part = []; split = refl; same = refl }, refl)
  read_items-eq-ok (suc n) vs r0 r all h =
      let ((v, r1), first, h1) = >>=-eq-ok (item r0) _ h in
      let ((ws, r2), others, h2) = >>=-eq-ok (read_items item n r1) _ h1 in
      let same : (cons v ws, r2) ≡ (vs, r) = ok-injective h2 in
      let used = each v r0 r1 all first in
      let left = bytes_left r0.rest used.part r1.rest used.split all in
      let (used', size) = read_items-eq-ok n ws r1 r2 left others in
      subst
        (λ (p : Items C × Reader).
          Used r0.rest p.1 (write_items write (to_list p.0)) × (length (to_list p.0) ≡ suc n))
        same
        (
          record {
            part = used.part ++ used'.part;
            split = parts r0.rest r1.rest used.part used'.part r2.rest used.split used'.split;
            same = rw (used.same, used'.same) refl;
          },
          ap suc size,
        )

  -- The entries that were read, in the order in which they came.
  record ReadEntries (n : ℕ) (previous : Option Text) (m : List (Entry C)) (unread : Bytes)
      (m' : List (Entry C)) (r : Reader) : Type 0 where
    es : List (Entry C)
    size : length es ≡ n
    used : Used unread r (write_entries write es)
    sorted : IsSorted key_bytes canonical_bytes es
    above : All (Above previous) es
    kept : place_all key_bytes byte_order replace m es ≡ m'

  read_entries-eq-ok :
      (n : ℕ) (previous : Option Text) (m m' : List (Entry C)) (r0 r : Reader)
      → All IsByte r0.rest
      → read_entries item n previous m r0 ≡ ok (m', r)
      → ReadEntries n previous m r0.rest m' r
  read_entries-eq-ok zero previous m m' r0 r all h =
      let same : (m, r0) ≡ (m', r) = ok-injective h in
      record {
        es = [];
        size = refl;
        used = record {
          part = [];
          split = ap (λ (p : List (Entry C) × Reader). p.1.rest) same;
          same = refl;
        };
        sorted = tt;
        above = tt;
        kept = ap (λ (p : List (Entry C) × Reader). p.0) same;
      }
  read_entries-eq-ok (suc n) previous m m' r0 r all h =
      let ((k, r1), key, h1) = >>=-eq-ok (map_err key_error (read_text r0)) _ h in
      let (_, ordered, h2) = >>=-eq-ok (check_order previous k) _ h1 in
      let ((v, r2), value, h3) = >>=-eq-ok (item r1) _ h2 in
      let name =
        read_text-eq-ok k r0 r1 all ((map_err_iff key_error (read_text r0) (k, r1)).0 key) in
      let left = bytes_left r0.rest (Encode.text k) r1.rest name all in
      let used = each v r1 r2 left value in
      let left' = bytes_left r1.rest used.part r2.rest used.split left in
      let others = read_entries-eq-ok n (some k) (map_insert (k, v) m) m' r2 r left' h3 in
      let above = check_order-Above previous k v ordered in
      record {
        es = (k, v) ∷ others.es;
        size = ap suc others.size;
        used = record {
          part = Encode.text k ++ (used.part ++ others.used.part);
          split =
              parts r0.rest r1.rest (Encode.text k) (used.part ++ others.used.part) r.rest name (
                parts r1.rest r2.rest used.part others.used.part r.rest used.split
                  others.used.split);
          same = rw (used.same, others.used.same) refl;
        };
        sorted = (others.above, others.sorted);
        above = (above, All-Above previous k v others.es above others.above);
        kept = others.kept;
      }

  pub read_list-eq-ok :
      (n : ℕ) (v : Ipld C) (r0 r1 r : Reader)
      → All IsByte r0.rest
      → Written r0.rest (record { major = 4; arg = n }) r1
      → read_list item n r1 ≡ ok (v, r)
      → (vs : Items C) × (Ipld.list vs ≡ v) × Used r0.rest r (write_list write (to_list vs))
  unfolding read_list write_list
  read_list-eq-ok n v r0 r1 r all head h =
      let (len, counted, h1) = >>=-eq-ok (ok_or (to_usize n) length_too_large) _ h in
      let is = to_usize-eq-some n len (ok_or-eq-ok (to_usize n) length_too_large counted) in
      let ((vs, r2), read, h2) = >>=-eq-ok (read_items item len r1) _ h1 in
      let same : (Ipld.list vs, r2) ≡ (v, r) = ok-injective h2 in
      let left = bytes_left r0.rest (Encode.head 4 n) r1.rest head.split all in
      let (used, size) = read_items-eq-ok len vs r1 r2 left read in
      let end : r2 ≡ r = ap (λ (p : Ipld C × Reader). p.1) same in
      (
        vs,
        ap (λ (p : Ipld C × Reader). p.0) same,
        subst (λ e. Used r0.rest e (write_list write (to_list vs))) end
            record {
              part = Encode.head 4 n ++ used.part;
              split =
                  parts r0.rest r1.rest (Encode.head 4 n) used.part r2.rest head.split used.split;
              same = rw (used.same, size, is) refl;
            },
      )

  pub read_map-eq-ok :
      (n : ℕ) (v : Ipld C) (r0 r1 r : Reader)
      → All IsByte r0.rest
      → Written r0.rest (record { major = 5; arg = n }) r1
      → read_map item n r1 ≡ ok (v, r)
      → (m : List (Entry C)) × (Ipld.map (of_entries m) ≡ v)
        × IsSorted key_bytes byte_order m
        × Used r0.rest r (write_map write m)
  unfolding read_map write_map
  read_map-eq-ok n v r0 r1 r all head h =
      let (len, counted, h1) = >>=-eq-ok (ok_or (to_usize n) length_too_large) _ h in
      let is = to_usize-eq-some n len (ok_or-eq-ok (to_usize n) length_too_large counted) in
      let ((m, r2), read, h2) = >>=-eq-ok (read_entries item len none [] r1) _ h1 in
      let same : (Ipld.map (of_entries m), r2) ≡ (v, r) = ok-injective h2 in
      let left = bytes_left r0.rest (Encode.head 5 n) r1.rest head.split all in
      let entries = read_entries-eq-ok len none [] m r1 r2 left read in
      let order : canonical m ≡ entries.es =
        ap canonical (sym entries.kept)
        ∙ sort-place_all key_bytes byte_order byte_order-IsOrder replace canonical_bytes
            canonical_bytes-IsOrder in_front entries.es entries.sorted in
      let distinct =
        IsSorted-IsDistinct key_bytes canonical_bytes canonical_bytes-IsOrder in_front entries.es
          entries.sorted in
      let in_order : IsSorted key_bytes byte_order m =
        subst (IsSorted key_bytes byte_order) entries.kept (
          place_all-IsSorted key_bytes byte_order byte_order-IsOrder replace [] entries.es distinct
            (AreFresh-nil key_bytes entries.es) tt) in
      let end : r2 ≡ r = ap (λ (p : Ipld C × Reader). p.1) same in
      (
        m,
        ap (λ (p : Ipld C × Reader). p.0) same,
        in_order,
        subst (λ e. Used r0.rest e (write_map write m)) end
            record {
              part = Encode.head 5 n ++ entries.used.part;
              split =
                  parts r0.rest r1.rest (Encode.head 5 n) entries.used.part r2.rest head.split
                    entries.used.split;
              same = rw order (rw (entries.used.same, entries.size, is) refl);
            },
      )
