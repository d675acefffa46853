-- ===== src/Crypto/Laws.antt =====
-- src/crypto/mod.rs: the multicodec table can be read in both directions.
use pq_ucan.Base.{ℕ, ◌≡◌, ◌↔◌, true, some, arith}
use pq_ucan.Crypto.{Algorithm, multicodec, from_multicodec, same_algorithm}

-- `from_multicodec` returns an algorithm exactly for the code that `multicodec` gives it.
pub from_multicodec_iff :
    (code : ℕ) (a : Algorithm) → (from_multicodec code ≡ some a) ↔ (multicodec a ≡ code)
unfolding from_multicodec
from_multicodec_iff code a = ground arith

pub same_algorithm_iff : (a b : Algorithm) → (same_algorithm a b ≡ true) ↔ (a ≡ b)
unfolding same_algorithm
same_algorithm_iff a b = ground arith
