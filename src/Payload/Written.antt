-- ===== src/Payload/Written.antt =====
-- src/envelope.rs: the values that are inserted for what was read.
use pq_ucan.Base.{sym, ap, ◌∙◌, map_err_iff, >>=-eq-ok, ok-injective, arith}
use pq_ucan.Did
use pq_ucan.Did.{Did}
use pq_ucan.Did.Laws.{parse-IsDid}
use pq_ucan.Error.{Error}
use pq_ucan.Ipld.{Ipld, of_list, of_list-to_list}
use pq_ucan.Time.{Expiry, at, never, from_unix}
use pq_ucan.Payload.{text, did, bytes, map, list, timestamp, link, expiry}
use pq_ucan.Payload.Taken.{Writes}

module _ {C : Type 0} where
  -- The arms on an expiry in `to_ipld`.
  abbrev pub expiry_value : Expiry → Ipld C
  expiry_value (at t) = Ipld.integer t
  expiry_value never = Ipld.null

  pub text-Writes : Writes {C = C} text Ipld.string
  unfolding text
  text-Writes (Ipld.string s) field a h = ap Ipld.string (sym (ok-injective h))
  text-Writes _ field a h = cc

  pub did-Writes : Writes {C = C} did Ipld.string
  unfolding did
  did-Writes v field d h =
      let (t, read, h1) = >>=-eq-ok (text v field) _ h in
      ap Ipld.string (parse-IsDid t d ((map_err_iff Error.did (Did.parse t) d).0 h1)).0
      ∙ text-Writes v field t read

  pub bytes-Writes : Writes {C = C} bytes Ipld.bytes
  unfolding bytes
  bytes-Writes (Ipld.bytes b) field a h = ap Ipld.bytes (sym (ok-injective h))
  bytes-Writes _ field a h = cc

  pub map-Writes : Writes {C = C} map Ipld.map
  unfolding map
  map-Writes (Ipld.map m) field a h = ap Ipld.map (sym (ok-injective h))
  map-Writes _ field a h = cc

  pub link-Writes : Writes {C = C} link Ipld.link
  unfolding link
  link-Writes (Ipld.link c) field a h = ap Ipld.link (sym (ok-injective h))
  link-Writes _ field a h = cc

  pub list-Writes : Writes {C = C} list (λ vs. Ipld.list (of_list vs))
  unfolding list
  list-Writes (Ipld.list vs) field a h =
      ap (λ l. Ipld.list (of_list l)) (sym (ok-injective h)) ∙ ap Ipld.list (of_list-to_list vs)
  list-Writes _ field a h = cc

  pub timestamp-Writes : Writes {C = C} timestamp Ipld.integer
  unfolding timestamp from_unix
  timestamp-Writes (Ipld.integer i) field a h = ground arith
  timestamp-Writes _ field a h = cc

  pub expiry-Writes : Writes {C = C} expiry expiry_value
  unfolding expiry
  expiry-Writes Ipld.null field e h = ap expiry_value (sym (ok-injective h))
  expiry-Writes (Ipld.integer i) field e h =
      let (t, read, h1) = >>=-eq-ok (timestamp {C = C} (Ipld.integer i) field) _ h in
      ap expiry_value (sym (ok-injective h1)) ∙ timestamp-Writes (Ipld.integer i) field t read
  expiry-Writes _ field e h = unfold timestamp in cc
