-- ===== src/Crypto.antt =====
-- src/crypto/mod.rs: algorithms, keys and signatures. The cryptography itself is in other crates, and
-- enters as a `Backend`.
pub mod Laws
use pq_ucan.Base.{
  ℕ, ◌≡◌, Bool, true, false, not, ◌&&◌, ◌||◌, ◌==◌, if◌then◌else◌, List, [], ◌∷◌, Option, none,
  some, length, Bytes, Result, ok, err, ensure, ◌>>=◌, ◌>>◌,
}

pub data Algorithm : Type 0 where
  ed25519 p256 secp256k1 ml_dsa44 ml_dsa65 ml_dsa87 : Algorithm

pub Algorithm-discrete : Discrete Algorithm
Algorithm-discrete = hlevel

abbrev pub all_algorithms : List Algorithm
all_algorithms = ed25519 ∷ p256 ∷ secp256k1 ∷ ml_dsa44 ∷ ml_dsa65 ∷ ml_dsa87 ∷ []

unfoldable pub multicodec : Algorithm → ℕ
multicodec ed25519 = 0xed
multicodec p256 = 0x1200
multicodec secp256k1 = 0xe7
multicodec ml_dsa44 = 0x1210
multicodec ml_dsa65 = 0x1211
multicodec ml_dsa87 = 0x1212

-- `into_iter().find(...)`.
abbrev pub find {ℓ} : {A : Type ℓ} → (A → Bool) → List A → Option A
find p [] = none
find p (x ∷ xs) = if p x then some x else find p xs

unfoldable pub from_multicodec : ℕ → Option Algorithm
unfolding multicodec
from_multicodec code = find (λ a. multicodec a == code) all_algorithms

unfoldable pub public_key_len : Algorithm → ℕ
public_key_len ed25519 = 32
public_key_len p256 = 33
public_key_len secp256k1 = 33
public_key_len ml_dsa44 = 1312
public_key_len ml_dsa65 = 1952
public_key_len ml_dsa87 = 2592

unfoldable pub signature_len : Algorithm → ℕ
signature_len ml_dsa44 = 2420
signature_len ml_dsa65 = 3309
signature_len ml_dsa87 = 4627
signature_len _ = 64

unfoldable pub same_algorithm : Algorithm → Algorithm → Bool
unfolding multicodec
same_algorithm a b = multicodec a == multicodec b

pub record PublicKey : Type 0 where
  pub algorithm : Algorithm
  pub bytes : Bytes

pub record Signature : Type 0 where
  pub algorithm : Algorithm
  pub bytes : Bytes

pub data CryptoError : Type 0 where
  unsupported invalid_key : Algorithm → CryptoError
  invalid_signature : CryptoError
  algorithm_mismatch : Algorithm → Algorithm → CryptoError
  verification_failed backend : CryptoError

-- The functions of the module `backend`, which call the crates that were compiled in.
pub record Backend : Type 0 where
  pub key_is_valid : Algorithm → Bytes → Bool
  pub check : Algorithm → Bytes → Bytes → Bytes → Result CryptoError (Unit {0})

-- `Signature::new`.
unfoldable pub new_signature : Algorithm → Bytes → Result CryptoError Signature
unfolding signature_len
new_signature a bytes =
    if length bytes == signature_len a
    then ok (record { algorithm = a; bytes = bytes })
    else err invalid_signature

module _ (crypto : Backend) where
  -- `PublicKey::new`.
  unfoldable pub new_key : Algorithm → Bytes → Result CryptoError PublicKey
  unfolding public_key_len
  new_key a bytes =
      if not (length bytes == public_key_len a) || not (crypto.key_is_valid a bytes)
      then err (invalid_key a)
      else ok (record { algorithm = a; bytes = bytes })

  -- `PublicKey::verify`.
  unfoldable pub verify : PublicKey → Bytes → Signature → Result CryptoError (Unit {0})
  unfolding same_algorithm
  verify key message signature = do
    ensure (same_algorithm signature.algorithm key.algorithm)
        (algorithm_mismatch key.algorithm signature.algorithm)
    crypto.check key.algorithm key.bytes message signature.bytes
