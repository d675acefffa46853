-- ===== src/Codec/Decode.antt =====
-- src/codec/decode.rs: the values. `levels` is how much deeper an item may nest, so that `MAX_DEPTH + 1`
-- less the source's `depth` are left. `crate` is the crate of CIDs.
use pq_ucan.Base.{
  ℕ, zero, suc, ◌+◌, ◌/◌, ◌%◌, ◌==◌, true, false, not, ◌&&◌, ◌||◌, if◌then◌else◌, pos, negsuc, List,
  [], ◌∷◌, Option, none, some, Bytes, Text, utf8, Ordering, Result, ok, err, ◌>>=◌, ◌>>◌, ok_or,
  ensure, map_err,
}
use pq_ucan.Cid.{CidCrate, from_bytes}
use pq_ucan.Codec.{
  CodecError, max_depth, unexpected_end, indefinite_length, invalid_float, non_string_key,
  unsorted_keys, duplicate_key, unsupported_tag, invalid_cid, unsupported_simple, reserved,
  nesting_too_deep, length_too_large, unexpected_type,
}
use pq_ucan.Codec.Order.{byte_order, canonical_order}
use pq_ucan.Codec.Reader.{
  Reader, Read, Head, start, finish, take_bytes, from_be_bytes, head, read_bytes, read_text,
  text_of,
}
use pq_ucan.Codec.Sorted.{place}
use pq_ucan.Float
use pq_ucan.Ipld.{Ipld, Items, nil, cons, of_entries}
use pq_ucan.Policy.Selector.{to_usize}

abbrev pub cid_tag : ℕ
cid_tag = 42

abbrev pub cid_multibase_identity : ℕ
cid_multibase_identity = 0

-- An entry of a map.
abbrev pub Entry : Type 0 → Type 0
Entry C = Text × Ipld C

abbrev pub key_error : CodecError → CodecError
key_error unexpected_type = non_string_key
key_error e = e

-- The arms on `canonical_order(prev, key)`.
abbrev pub order_result : Ordering → Result CodecError (Unit {0})
order_result Ordering.lt = ok tt
order_result Ordering.eq = err duplicate_key
order_result Ordering.gt = err unsorted_keys

abbrev pub check_order : Option Text → Text → Result CodecError (Unit {0})
check_order none k = ok tt
check_order (some previous) k = order_result (canonical_order previous k)

module _ {C : Type 0} where
  abbrev pub key_bytes : Entry C → Bytes
  key_bytes e = utf8 e.0

  -- An equal key keeps its place and gets the new value.
  abbrev pub replace : Entry C → Entry C → List (Entry C) → List (Entry C)
  replace e x xs = (x.0, e.1) ∷ xs

  -- `BTreeMap::insert`.
  abbrev pub map_insert : Entry C → List (Entry C) → List (Entry C)
  map_insert e m = place key_bytes byte_order replace e m

  -- A finite float that is not -0.0.
  abbrev pub float_value : ℕ → Reader → Result CodecError (Ipld C × Reader)
  float_value f r =
      if Float.is_finite f && not (Float.eq f 0 && Float.is_sign_negative f)
      then ok (Ipld.float f, r)
      else err invalid_float

  unfoldable pub simple : ℕ → Read (Ipld C)
  simple info r =
      if info == 20
      then ok (Ipld.bool false, r)
      else if info == 21
      then ok (Ipld.bool true, r)
      else if info == 22
      then ok (Ipld.null, r)
      else if info == 27
      then (do (raw, r') ← take_bytes 8 r; float_value (from_be_bytes 0 raw) r')
      else if info == 25 || info == 26
      then err invalid_float
      else if info == 31
      then err indefinite_length
      else err unsupported_simple

  -- `for _ in 0..len`, over the reader of one item.
  abbrev pub read_items : Read (Ipld C) → ℕ → Read (Items C)
  read_items item zero r = ok (nil, r)
  read_items item (suc n) r = do
    (v, r1) ← item r
    (vs, r2) ← read_items item n r1
    ok (cons v vs, r2)

  -- The loop of `map`, with the previous key and the map so far.
  abbrev pub read_entries : Read (Ipld C) → ℕ → Option Text → List (Entry C) → Read (List (Entry C))
  read_entries item zero previous m r = ok (m, r)
  read_entries item (suc n) previous m r = do
    (k, r1) ← map_err key_error (read_text r)
    check_order previous k
    (v, r2) ← item r1
    read_entries item n (some k) (map_insert (k, v) m) r2

  unfoldable pub read_map : Read (Ipld C) → ℕ → Read (Ipld C)
  read_map item n r = do
    len ← ok_or (to_usize n) length_too_large
    (m, r') ← read_entries item len none [] r
    ok (Ipld.map (of_entries m), r')

  unfoldable pub read_list : Read (Ipld C) → ℕ → Read (Ipld C)
  read_list item n r = do
    len ← ok_or (to_usize n) length_too_large
    (vs, r') ← read_items item len r
    ok (Ipld.list vs, r')

abbrev pub link_error : CodecError → CodecError
link_error unexpected_type = invalid_cid
link_error e = e

-- `split_first`.
abbrev pub split_first : Bytes → Option (ℕ × Bytes)
split_first [] = none
split_first (b ∷ bs) = some (b, bs)

module _ {C : Type 0} (crate : CidCrate C) where
  unfoldable pub read_link : ℕ → Read (Ipld C)
  read_link tag r = do
    ensure (tag == cid_tag) (unsupported_tag tag)
    (raw, r') ← map_err link_error (read_bytes r)
    (prefix, cid) ← ok_or (split_first raw) invalid_cid
    ensure (prefix == cid_multibase_identity) invalid_cid
    c ← map_err (λ e. invalid_cid) (from_bytes crate cid)
    ok (Ipld.link c, r')

  abbrev pub bytes_value : ℕ → Read (Ipld C)
  bytes_value n r = do (raw, r') ← take_bytes n r; ok (Ipld.bytes raw, r')

  abbrev pub text_value : ℕ → Read (Ipld C)
  text_value n r = do (text, r') ← text_of n r; ok (Ipld.string text, r')

  -- The arms on the major type.
  unfoldable pub by_major : Read (Ipld C) → Head → Read (Ipld C)
  by_major item h r =
      if h.major == 0
      then ok (Ipld.integer (pos h.arg), r)
      else if h.major == 1
      then ok (Ipld.integer (negsuc h.arg), r)
      else if h.major == 2
      then bytes_value h.arg r
      else if h.major == 3
      then text_value h.arg r
      else if h.major == 4
      then read_list item h.arg r
      else if h.major == 5
      then read_map item h.arg r
      else if h.major == 6
      then read_link h.arg r
      else err reserved

  abbrev pub headed : Read (Ipld C) → Read (Ipld C)
  headed item r = do (h, r') ← head r; by_major item h r'

  unfoldable pub item : ℕ → Read (Ipld C)
  item zero r = err nesting_too_deep
  item (suc levels) r = elim r.rest [
    | [] ↦ err unexpected_end
    | b ∷ bs ↦
        if b / 32 == 7
        then simple (b % 32) (record { rest = bs; pos = r.pos + 1 })
        else headed (item levels) r
  ]

  -- `Reader::value`.
  abbrev pub value : Read (Ipld C)
  value r = item (max_depth + 1) r

  unfoldable pub decode : Bytes → Result CodecError (Ipld C)
  decode bytes = do (v, r) ← value (start bytes); finish r; ok v
