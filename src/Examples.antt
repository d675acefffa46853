-- ===== src/Examples.antt =====
-- Tests of the model: concrete tokens, policies and texts, and the theorems at them.
mod Chain
mod Codec
mod Tokens
mod Delegations
mod Revoke
mod Texts
mod Policies
use pq_ucan.Base.{ℕ, ◌==◌, ==_iff, Bool}
use pq_ucan.Validate.Map.{IsEquality}

-- CIDs are numbers here.
abbrev pub same_number : ℕ → ℕ → Bool
same_number a b = a == b

pub same_number-IsEquality : IsEquality same_number
same_number-IsEquality = ==_iff
