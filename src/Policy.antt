-- ===== src/Policy.antt =====
-- src/policy: the policy language.
pub mod Glob
pub mod Number
pub mod Selector
pub mod Syntax
pub mod Wire
pub mod Eval
