-- ===== src/Directory.antt =====
-- src/forge_gateway/domain/tool_directory.py
pub mod State
pub mod Register
pub mod Manage
pub mod Expiry
pub mod Cases
pub mod Leases
pub mod Soundness
pub mod Resolving
pub mod Leaving
pub mod Listing
mod Tests
