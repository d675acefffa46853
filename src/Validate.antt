-- ===== src/Validate.antt =====
-- src/validate.rs: the pipeline that checks an invocation against its proof chain. Its stores are in
-- Validate/Stores.antt.
pub mod Loops
pub mod Errors
pub mod Chain
pub mod Map
pub mod Stores
pub mod Revocation
pub mod Pipeline
pub mod Structure
pub mod Authorized
pub mod Replay
