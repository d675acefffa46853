-- ===== src/Codec/Encode.antt =====
-- src/codec/encode.rs: canonical DAG-CBOR. A function that appends to `out` returns what it appends.
use pq_ucan.Base.{
  ℕ, zero, suc, ◌+◌, ◌-◌, ◌*◌, ◌/◌, ◌%◌, ◌^◌, leb, true, false, if◌then◌else◌, ℤ, pos, negsuc, List,
  [], ◌∷◌, ◌++◌, Option, none, some, length, Bytes, Text, utf8, Result, ok, err, ◌>>=◌, ◌>>◌, ok_or,
  ensure,
}
use pq_ucan.Cid.{CidCrate}
use pq_ucan.Codec.{CodecError, max_depth, integer_out_of_range, invalid_float, nesting_too_deep}
use pq_ucan.Codec.Decode.{Entry, key_bytes, cid_tag, cid_multibase_identity}
use pq_ucan.Codec.Order.{canonical_bytes}
use pq_ucan.Codec.Sorted.{sort_entries}
use pq_ucan.Float
use pq_ucan.Ipld.{Ipld, entries, to_list}

-- `to_be_bytes` of a number of `n` bytes.
abbrev pub to_be_bytes : ℕ → ℕ → Bytes
to_be_bytes zero v = []
to_be_bytes (suc n) v = to_be_bytes n (v / 256) ++ (v % 256) ∷ []

unfoldable pub head : ℕ → ℕ → Bytes
head major arg =
    if leb arg 23
    then (major * 32 + arg) ∷ []
    else if leb arg 0xff
    then (major * 32 + 24) ∷ to_be_bytes 1 arg
    else if leb arg 0xffff
    then (major * 32 + 25) ∷ to_be_bytes 2 arg
    else if leb arg 0xffffffff
    then (major * 32 + 26) ∷ to_be_bytes 4 arg
    else (major * 32 + 27) ∷ to_be_bytes 8 arg

unfoldable pub bytes : Bytes → Bytes
bytes value = head 2 (length value) ++ value

unfoldable pub text : Text → Bytes
text value = head 3 (length (utf8 value)) ++ utf8 value

-- `u64::try_from`.
abbrev pub to_u64 : ℕ → Option ℕ
to_u64 n = if leb n (2 ^ 64 - 1) then some n else none

unfoldable pub integer : ℤ → Result CodecError Bytes
integer (pos n) = do arg ← ok_or (to_u64 n) integer_out_of_range; ok (head 0 arg)
integer (negsuc n) = do arg ← ok_or (to_u64 n) integer_out_of_range; ok (head 1 arg)

unfoldable pub float : ℕ → Result CodecError Bytes
float f = do
  ensure (Float.is_finite f) invalid_float
  ok (0xfb ∷ to_be_bytes 8 (if Float.eq f 0 then 0 else f))

module _ {C : Type 0} where
  -- `for entry in items`, over the writer of one item.
  abbrev pub write_items :
      (Ipld C → Result CodecError Bytes) → List (Ipld C) → Result CodecError Bytes
  write_items item [] = ok []
  write_items item (v ∷ vs) = do first ← item v; later ← write_items item vs; ok (first ++ later)

  -- A stable sort puts an entry in front of those with its key that come later.
  abbrev pub in_front : Entry C → Entry C → List (Entry C) → List (Entry C)
  in_front e x xs = e ∷ x ∷ xs

  -- `sort_by` on length, then bytes.
  abbrev pub canonical : List (Entry C) → List (Entry C)
  canonical es = sort_entries key_bytes canonical_bytes in_front es

  abbrev pub write_entries :
      (Ipld C → Result CodecError Bytes) → List (Entry C) → Result CodecError Bytes
  write_entries item [] = ok []
  write_entries item ((k, v) ∷ es) = do
    first ← item v
    later ← write_entries item es
    ok (text k ++ (first ++ later))

  unfoldable pub write_list :
      (Ipld C → Result CodecError Bytes) → List (Ipld C) → Result CodecError Bytes
  write_list item vs = do body ← write_items item vs; ok (head 4 (length vs) ++ body)

  unfoldable pub write_map :
      (Ipld C → Result CodecError Bytes) → List (Entry C) → Result CodecError Bytes
  write_map item es = do
    body ← write_entries item (canonical es)
    ok (head 5 (length (canonical es)) ++ body)

module _ {C : Type 0} (crate : CidCrate C) where
  unfoldable pub link : C → Bytes
  link c =
      head 6 cid_tag
      ++ (head 2 (length (crate.to_bytes c) + 1) ++ cid_multibase_identity ∷ crate.to_bytes c)

  unfoldable pub item : ℕ → Ipld C → Result CodecError Bytes
  item zero v = err nesting_too_deep
  item (suc levels) Ipld.null = ok (0xf6 ∷ [])
  item (suc levels) (Ipld.bool false) = ok (0xf4 ∷ [])
  item (suc levels) (Ipld.bool true) = ok (0xf5 ∷ [])
  item (suc levels) (Ipld.integer i) = integer i
  item (suc levels) (Ipld.float f) = float f
  item (suc levels) (Ipld.string s) = ok (text s)
  item (suc levels) (Ipld.bytes b) = ok (bytes b)
  item (suc levels) (Ipld.list vs) = write_list (item levels) (to_list vs)
  item (suc levels) (Ipld.map fs) = write_map (item levels) (entries fs)
  item (suc levels) (Ipld.link c) = ok (link c)

  unfoldable pub encode : Ipld C → Result CodecError Bytes
  encode v = item (max_depth + 1) v
