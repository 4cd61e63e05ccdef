-- ===== src/Invocations.antt =====
-- src/forge_gateway/domain/action_invocations.py
pub mod Item
pub mod Changes
pub mod Store
pub mod Observe
pub mod Events
pub mod Invariant
pub mod Evolution
pub mod Calls
pub mod Eviction
pub mod Steps
pub mod Methods
pub mod History
pub mod Fence
pub mod Sweeps
pub mod Reading
pub mod Soundness
mod Tests
