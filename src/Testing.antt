-- ===== src/Testing.antt =====
-- A database, a data plane and a cipher that run, in one small world: they meet the laws that the
-- theorems take as hypotheses, and the examples apply the theorems in it.
pub mod Sessions
pub mod Requests
pub mod Startup
pub mod Tokens
pub mod Operations
pub mod Rows
pub mod Tables
pub mod Codec
pub mod World
pub mod Management
pub mod Examples
pub mod Revocations
pub mod Witnesses
