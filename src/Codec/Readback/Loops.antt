-- ===== src/Codec/Readback/Loops.antt =====
-- src/codec: the loops over items and over entries, written and read back.
use pq_ucan.Base.{
  ℕ, suc, ◌+◌, ◌^◌, ◌≤◌, ◌<◌, ◌≡◌, refl, ap, subst, ◌∙◌, List, [], ◌∷◌, ◌++◌, Option, none, some,
  length, length-append, Bytes, Text, utf8, IsScalar, All, arith, Result, ok, ◌>>=◌, ◌>>◌,
  >>=-eq-ok, ok-injective, ok_or, map_err,
}
use pq_ucan.Ipld.{Ipld, Items, nil, cons, Fields, to_list, of_entries, entries, of_entries-entries}
use pq_ucan.Codec.{CodecError, length_too_large}
use pq_ucan.Codec.Canonical.Loops.{Above}
use pq_ucan.Codec.Decode.{
  Entry, key_bytes, replace, map_insert, key_error, check_order, read_items, read_entries,
  read_list, read_map,
}
use pq_ucan.Codec.Encode
use pq_ucan.Codec.Encode.{write_items, write_entries, write_list, write_map, in_front, canonical}
use pq_ucan.Codec.Heads.{cursor}
use pq_ucan.Codec.Order.{
  byte_order, byte_order-IsOrder, canonical_bytes, canonical_bytes-IsOrder, canonical_order,
}
use pq_ucan.Codec.Readback.{ReadsBack, reads_then, reads_map, reads_text, head_pos}
use pq_ucan.Codec.Reader.{Read, read_text}
use pq_ucan.Codec.Sorted.{place_all, IsSorted, IsSorted-IsDistinct, sort-All, sort-IsSorted}
use pq_ucan.Codec.Sorted.Both.{place_all-sort}
use pq_ucan.Policy.Selector.{to_usize}

text_pos : (s : Text) → 1 ≤ length (Encode.text s)
unfolding Encode.text
text_pos s =
    omega (
      arith,
      head_pos 3 (length (utf8 s)),
      length-append (Encode.head 3 (length (utf8 s))) (utf8 s),
    )

text_longer : (s : Text) → length (utf8 s) ≤ length (Encode.text s)
unfolding Encode.text
text_longer s = omega (arith, length-append (Encode.head 3 (length (utf8 s))) (utf8 s))

to_usize_fits : (n : ℕ) → n < 2 ^ 63 → to_usize n ≡ some n
to_usize_fits n h = ground arith

reads_nothing :
    {A : Type 0} (a : A) (used : Bytes)
    → Path (Result CodecError Bytes) (ok []) (ok used)
    → (0 ≤ length used) × ReadsBack (λ r. ok (a, r)) a used
reads_nothing a used h =
    let same : [] ≡ used = ok-injective h in
    subst (λ u. (0 ≤ length u) × ReadsBack (λ r. ok (a, r)) a u) same
      (
        omega arith,
        λ rest at room.
            let stays : at ≡ at + 0 = omega arith in ap (λ n. ok (a, cursor rest n)) stays,
      )

module _ {C : Type 0} where
  Above-check_order :
      (previous : Option Text) (e : Entry C) → Above previous e → check_order previous e.0 ≡ ok tt
  unfolding canonical_order
  Above-check_order none e h = refl
  Above-check_order (some p) e h = rw h refl

  -- `value` is written as `used`, and read back from it.
  pub record IsReadBack (item : Read (Ipld C)) (value : Ipld C) (used : Bytes) : Type 0 where
    pub reads :
        (rest : Bytes) (at : ℕ)
        → at + length used < 2 ^ 63
        → item (cursor (used ++ rest) at) ≡ ok (value, cursor rest (at + length used))
    pub pos : 1 ≤ length used

  -- A collection is written as its head and a body, and read back behind its head.
  pub record IsCollection (major : ℕ) (reader : ℕ → Read (Ipld C)) (value : Ipld C) (used : Bytes)
      : Type 0 where
    pub count : ℕ
    pub body : Bytes
    pub same : Encode.head major count ++ body ≡ used
    pub fits : count ≤ length body
    pub reads :
        (rest : Bytes) (at : ℕ)
        → at + length body < 2 ^ 63
        → reader count (cursor (body ++ rest) at) ≡ ok (value, cursor rest (at + length body))

-- Over a reader and a writer of one item, and the values `P` that are read back.
module _ {C : Type 0} (item : Read (Ipld C)) (write : Ipld C → Result CodecError Bytes)
    (P : Ipld C → Type 0)
    (each : (v : Ipld C) (used : Bytes) → P v → write v ≡ ok used → IsReadBack item v used) where
  read_items-ReadsBack :
      (vs : Items C) (used : Bytes)
      → All P (to_list vs)
      → write_items write (to_list vs) ≡ ok used
      → (length (to_list vs) ≤ length used)
        × ReadsBack (read_items item (length (to_list vs))) vs used
  read_items-ReadsBack nil used all h = reads_nothing nil used h
  read_items-ReadsBack (cons v vs) used all h =
      let (p, first, h1) = >>=-eq-ok (write v) _ h in
      let (q, later, h2) = >>=-eq-ok (write_items write (to_list vs)) _ h1 in
      let one = each v p all.0 first in
      let (count, others) = read_items-ReadsBack vs q all.1 later in
      let same : p ++ q ≡ used = ok-injective h2 in
      subst
        (λ u.
          (suc (length (to_list vs)) ≤ length u)
          × ReadsBack (read_items item (suc (length (to_list vs)))) (cons v vs) u)
        same
        (
          omega (arith, one.pos, count, length-append p q),
          reads_then item
              (λ a r. read_items item (length (to_list vs)) r >>= λ x. ok (cons a x.0, x.1)) v
              (cons v vs) p q one.reads
              (reads_map (read_items item (length (to_list vs))) (cons v) vs q others),
        )

  -- An entry that can be written and read back.
  abbrev Entries : List (Entry C) → Type 0
  Entries es = All (λ e. All IsScalar e.0 × P e.1) es

  read_entries-ReadsBack :
      (es : List (Entry C)) (previous : Option Text) (m : List (Entry C)) (used : Bytes)
      → Entries es
      → All (Above previous) es
      → IsSorted key_bytes canonical_bytes es
      → write_entries write es ≡ ok used
      → (length es ≤ length used)
        × ReadsBack
            (read_entries item (length es) previous m)
            (place_all key_bytes byte_order replace m es)
            used
  read_entries-ReadsBack [] previous m used all above sorted h = reads_nothing m used h
  read_entries-ReadsBack ((k, v) ∷ es) previous m used all above sorted h =
      let (p, first, h1) = >>=-eq-ok (write v) _ h in
      let (q, later, h2) = >>=-eq-ok (write_entries write es) _ h1 in
      let one = each v p all.0.1 first in
      let (count, others) =
        read_entries-ReadsBack es (some k) (map_insert (k, v) m) q all.1 sorted.0 sorted.1 later in
      let same : Encode.text k ++ (p ++ q) ≡ used = ok-injective h2 in
      let size : length (Encode.text k ++ (p ++ q)) ≡ length (Encode.text k) + length (p ++ q) =
        length-append (Encode.text k) (p ++ q) in
      let size' : length (p ++ q) ≡ length p + length q = length-append p q in
      subst
        (λ u.
          (suc (length es) ≤ length u)
          × ReadsBack (read_entries item (suc (length es)) previous m)
              (place_all key_bytes byte_order replace (map_insert (k, v) m) es) u)
        same
        (
          omega (arith, one.pos, count, size, size'),
          λ rest at room.
              reads_then (λ r. map_err key_error (read_text r))
                (λ a r1.
                  check_order previous a
                  >> (item r1 >>= λ x.
                      read_entries item (length es) (some a) (map_insert (a, x.0) m) x.1))
                k (place_all key_bytes byte_order replace (map_insert (k, v) m) es) (Encode.text k)
                (p ++ q)
                (λ rest at room.
                  ap (map_err key_error)
                    (reads_text k all.0.0 (omega (arith, room, text_longer k)) rest at room))
                (λ rest at room.
                  ap
                    (λ (c : Result CodecError (Unit {0})).
                      c
                      >> (item (cursor ((p ++ q) ++ rest) at) >>= λ x.
                          read_entries item (length es) (some k) (map_insert (k, x.0) m) x.1))
                    (Above-check_order previous (k, v) above.0)
                  ∙ reads_then item
                      (λ a r. read_entries item (length es) (some k) (map_insert (k, a) m) r) v
                      (place_all key_bytes byte_order replace (map_insert (k, v) m) es) p q
                      one.reads others rest at room)
                rest at room,
        )

  pub list-IsCollection :
      (vs : Items C) (used : Bytes)
      → All P (to_list vs)
      → write_list write (to_list vs) ≡ ok used
      → IsCollection 4 (read_list item) (Ipld.list vs) used
  unfolding read_list write_list
  list-IsCollection vs used all h =
      let (body, written, h1) = >>=-eq-ok (write_items write (to_list vs)) _ h in
      let (count, others) = read_items-ReadsBack vs body all written in
      record {
        count = length (to_list vs);
        body = body;
        same = ok-injective h1;
        fits = count;
        reads = λ rest at room.
            ap
              (λ o. ok_or o length_too_large >>= λ n.
                read_items item n (cursor (body ++ rest) at) >>= λ x. ok (Ipld.list x.0, x.1))
              (to_usize_fits (length (to_list vs)) (omega (arith, count, room)))
            ∙ reads_map (read_items item (length (to_list vs))) Ipld.list vs body others rest at
                room;
      }

  pub map-IsCollection :
      (fs : Fields C) (used : Bytes)
      → All (λ e. All IsScalar e.0 × P e.1) (entries fs)
      → IsSorted key_bytes byte_order (entries fs)
      → write_map write (entries fs) ≡ ok used
      → IsCollection 5 (read_map item) (Ipld.map fs) used
  unfolding read_map write_map
  map-IsCollection fs used all sorted h =
      let es = canonical (entries fs) in
      let distinct =
        IsSorted-IsDistinct key_bytes byte_order byte_order-IsOrder replace (entries fs) sorted in
      let all' : Entries es =
        sort-All key_bytes canonical_bytes canonical_bytes-IsOrder in_front
          (λ e. All IsScalar e.0 × P e.1) (entries fs) distinct all in
      let sorted' : IsSorted key_bytes canonical_bytes es =
        sort-IsSorted key_bytes canonical_bytes canonical_bytes-IsOrder in_front (entries fs)
          distinct in
      let (body, written, h1) = >>=-eq-ok (write_entries write es) _ h in
      let (count, others) =
        read_entries-ReadsBack es none [] body all' (Above_none es) sorted' written in
      let back : place_all key_bytes byte_order replace [] es ≡ entries fs =
        place_all-sort key_bytes byte_order byte_order-IsOrder replace canonical_bytes
          canonical_bytes-IsOrder in_front (entries fs) sorted in
      let value : Ipld.map (of_entries (place_all key_bytes byte_order replace [] es))
          ≡ Ipld.map fs =
        ap (λ l. Ipld.map (of_entries l)) back ∙ ap Ipld.map (of_entries-entries fs) in
      record {
        count = length es;
        body = body;
        same = ok-injective h1;
        fits = count;
        reads = λ rest at room.
            ap
              (λ o. ok_or o length_too_large >>= λ n.
                read_entries item n none [] (cursor (body ++ rest) at) >>= λ x.
                ok (Ipld.map (of_entries x.0), x.1))
              (to_usize_fits (length es) (omega (arith, count, room)))
            ∙ reads_map (read_entries item (length es) none []) (λ l. Ipld.map (of_entries l))
                (place_all key_bytes byte_order replace [] es) body others rest at room
            ∙ ap (λ k. ok (k, cursor rest (at + length body))) value;
      }
    where
      Above_none : (es : List (Entry C)) → All (Above none) es
      Above_none [] = tt
      Above_none (e ∷ es) = (tt, Above_none es)
