-- ===== src/Policy/Selector/Kinds.antt =====
-- src/policy/selector.rs: the segments of a selector.
use pq_ucan.Base.{Bool, ℤ, Option, Text}

pub data Kind : Type 0 where
  key : Text → Kind
  values : Kind
  index : ℤ → Kind
  slice : Option ℤ → Option ℤ → Kind

pub record Segment : Type 0 where
  pub kind : Kind
  pub optional : Bool
