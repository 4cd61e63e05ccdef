-- ===== src/Handler.antt =====
-- src/forge_tool/handler.py: the execution records of one endpoint process.
pub mod State
pub mod Steps
pub mod Observe
pub mod Records
pub mod Room
pub mod Permits
pub mod Sections
pub mod History
pub mod Emitter
pub mod Numbering
pub mod Fates
pub mod Retained
pub mod Unchanged
pub mod Survival
mod Tests
