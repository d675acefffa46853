-- ===== src/Cid.antt =====
-- src/cid.rs, over the crates that it calls: `C` is the type of CIDs of ipld-core, with its text and byte
-- forms, and base58 and SHA-256 are those of their crates.
use pq_ucan.Base.{
  ℕ, ◌≡◌, sym, ap, ◌∙◌, text_eq→eq, ok-injective, ensure-eq-ok, >>=-eq-ok, text_eq, ◌∷◌, Option,
  none, some, strip_prefix?, Text, Bytes, codes, Result, ok, ◌>>=◌, ◌>>◌, ok_or, ensure,
}

pub data CidError : Type 0 where
  base58 cid : CidError

-- `Cid` of ipld-core: `TryFrom<&[u8]>`, `to_bytes`, `TryFrom<&str>` and `Display`.
pub record CidCrate (C : Type 0) : Type 0 where
  pub try_bytes : Bytes → Option C
  pub to_bytes : C → Bytes
  pub try_text : Text → Option C
  pub to_text : C → Text

-- `bs58`: `encode(..).into_string()` and `decode(..).into_vec()`.
pub record Base58 : Type 0 where
  pub encode : Bytes → Text
  pub decode : Text → Option Bytes

-- SHA-256 of sha2, and `Multihash::wrap`, its default and `Cid::new_v1` of ipld-core, where `M` is the
-- type of multihashes.
pub record Hashing (M C : Type 0) : Type 0 where
  pub digest : Bytes → Bytes
  pub wrap : ℕ → Bytes → Option M
  pub default_hash : M
  pub new_v1 : ℕ → M → C

abbrev pub unwrap_or : {A : Type 0} → Option A → A → A
unwrap_or none a = a
unwrap_or (some b) a = b

abbrev pub of_dag_cbor : {M C : Type 0} → Hashing M C → Bytes → C
of_dag_cbor hashing bytes =
    hashing.new_v1 0x71 (unwrap_or (hashing.wrap 0x12 (hashing.digest bytes)) hashing.default_hash)

module _ {C : Type 0} (crate : CidCrate C) where
  unfoldable pub from_bytes : Bytes → Result CidError C
  from_bytes raw = do
    found ← ok_or (crate.try_bytes raw) cid
    ensure (text_eq (crate.to_bytes found) raw) cid
    ok found

  unfoldable pub from_text : Text → Result CidError C
  from_text text = do
    found ← ok_or (crate.try_text text) cid
    ensure (text_eq (crate.to_text found) text) cid
    ok found

  -- A CID that was read is written as the bytes it was read from.
  pub from_bytes-eq-ok : (raw : Bytes) (c : C) → from_bytes raw ≡ ok c → crate.to_bytes c ≡ raw
  unfolding from_bytes
  from_bytes-eq-ok raw c h =
      let (found, tried, h1) = >>=-eq-ok (ok_or (crate.try_bytes raw) cid) _ h in
      let (_, same, h2) = >>=-eq-ok (ensure (text_eq (crate.to_bytes found) raw) cid) _ h1 in
      ap (λ k. crate.to_bytes k) (sym (ok-injective h2))
      ∙ text_eq→eq (crate.to_bytes found) raw
          (ensure-eq-ok (text_eq (crate.to_bytes found) raw) cid same)

module _ {C : Type 0} (crate : CidCrate C) (bs58 : Base58) where
  unfoldable pub to_base58btc : C → Text
  to_base58btc c = b'z' ∷ bs58.encode (crate.to_bytes c)

  abbrev pub from_base58 : Text → Result CidError C
  from_base58 b58 = do raw ← ok_or (bs58.decode b58) base58; from_bytes crate raw

  unfoldable pub parse : Text → Result CidError C
  unfolding from_bytes from_text
  parse text = elim (strip_prefix? (codes "z") text) [
    | some b58 ↦ from_base58 b58
    | none ↦ from_text crate text
  ]
