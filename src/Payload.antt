-- ===== src/Payload.antt =====
-- src/envelope.rs: the fields of a payload, taken one at a time, and the values in them. A map is the
-- list of its entries, which `take` shortens.
pub mod Taken
pub mod Written
pub mod Delegation
pub mod Invocation
pub mod Inserted
pub mod RoundTrip
use pq_ucan.Base.{
  ℕ, Bool, ◌&&◌, if◌then◌else◌, List, [], ◌∷◌, Option, none, some, text_eq, Text, Bytes, leb_ℤ,
  Result, ok, err, ◌>>=◌, ◌>>◌, ok_or, map_err,
}
use pq_ucan.Codec.Decode.{Entry, key_bytes, replace}
use pq_ucan.Codec.Order.{byte_order}
use pq_ucan.Codec.Sorted.{place_all}
use pq_ucan.Did
use pq_ucan.Did.{Did}
use pq_ucan.Error.{Error, missing, unknown, type_of, range, payload_not_map}
use pq_ucan.Ipld.{Ipld, Items, Fields, entries, of_entries, to_list}
use pq_ucan.Time.{Timestamp, Expiry, at, never, i64_min, i64_max, from_unix}

abbrev pub type_error : {A : Type 0} → Text → Result Error A
type_error field = err (Error.payload (type_of field))

module _ {C : Type 0} where
  -- The map after the insertions of `es`, from the first one on.
  abbrev pub inserted : List (Entry C) → Ipld C
  inserted es = Ipld.map (of_entries (place_all key_bytes byte_order replace [] es))

  -- `if let Some(value)` around an insertion.
  abbrev pub optional_entry : {A : Type 0} → Text → (A → Ipld C) → Option A → List (Entry C)
  optional_entry field value none = []
  optional_entry field value (some a) = (field, value a) ∷ []

  -- `Fields::new`.
  unfoldable pub new_fields : Ipld C → Result Error (List (Entry C))
  new_fields (Ipld.map fs) = ok (entries fs)
  new_fields _ = err (Error.envelope payload_not_map)

  -- `Fields::take`, with the map that is left.
  abbrev pub take_field : Text → List (Entry C) → Option (Ipld C) × List (Entry C)
  take_field field [] = (none, [])
  take_field field ((k, v) ∷ m) =
      let later = take_field field m in
      if text_eq k field then (some v, m) else (later.0, (k, v) ∷ later.1)

  abbrev pub require : Text → List (Entry C) → Result Error (Ipld C × List (Entry C))
  require field m = do
    v ← ok_or (take_field field m).0 (Error.payload (missing field))
    ok (v, (take_field field m).1)

  unfoldable pub finish : List (Entry C) → Result Error (Unit {0})
  finish [] = ok tt
  finish ((k, v) ∷ m) = err (Error.payload (unknown k))

  unfoldable pub text : Ipld C → Text → Result Error Text
  text (Ipld.string s) field = ok s
  text _ field = type_error field

  unfoldable pub did : Ipld C → Text → Result Error Did
  unfolding text
  did value field = do t ← text value field; map_err Error.did (Did.parse t)

  unfoldable pub bytes : Ipld C → Text → Result Error Bytes
  bytes (Ipld.bytes b) field = ok b
  bytes _ field = type_error field

  unfoldable pub map : Ipld C → Text → Result Error (Fields C)
  map (Ipld.map m) field = ok m
  map _ field = type_error field

  unfoldable pub list : Ipld C → Text → Result Error (List (Ipld C))
  list (Ipld.list vs) field = ok (to_list vs)
  list _ field = type_error field

  unfoldable pub timestamp : Ipld C → Text → Result Error Timestamp
  unfolding from_unix
  timestamp (Ipld.integer i) field =
      if leb_ℤ i64_min i && leb_ℤ i i64_max
      then map_err (λ e. Error.payload (range field)) (from_unix i)
      else err (Error.payload (range field))
  timestamp _ field = type_error field

  unfoldable pub link : Ipld C → Text → Result Error C
  link (Ipld.link c) field = ok c
  link _ field = type_error field

  -- The arms on `exp`.
  unfoldable pub expiry : Ipld C → Text → Result Error Expiry
  unfolding timestamp
  expiry Ipld.null field = ok never
  expiry value field = do t ← timestamp value field; ok (at t)

  -- A field that must be there, read by `read`.
  abbrev pub required :
      {A : Type 0}
      → (Ipld C → Text → Result Error A)
      → Text
      → List (Entry C)
      → Result Error (A × List (Entry C))
  required read field m = do (v, m') ← require field m; a ← read v field; ok (a, m')

  -- `map` and `transpose` on a field that may be there.
  abbrev pub transpose :
      {A : Type 0}
      → (Ipld C → Text → Result Error A)
      → Text
      → Option (Ipld C)
      → Result Error (Option A)
  transpose read field none = ok none
  transpose read field (some v) = do a ← read v field; ok (some a)

  abbrev pub optional :
      {A : Type 0}
      → (Ipld C → Text → Result Error A)
      → Text
      → List (Entry C)
      → Result Error (Option A × List (Entry C))
  optional read field m = do
    a ← transpose read field (take_field field m).0
    ok (a, (take_field field m).1)
