-- ===== src/Endpoint.antt =====
-- The values of src/forge_tool/endpoint/models.py.
pub mod Json
pub mod Values
pub mod Equality
pub mod Checks
pub mod Copies
pub mod Responses
mod Tests
