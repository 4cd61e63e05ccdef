-- ===== src/Wire.antt =====
-- src/forge_tool/wire: what an envelope must be, and its payloads as JSON.
pub mod Text
pub mod Envelope
