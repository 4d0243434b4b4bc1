-- ===== src/Capabilities.antt =====
-- The capabilities of Apps, backend/capabilities.
pub mod Grants
pub mod Policy
pub mod Queries
pub mod Mutations
pub mod Files
mod Tests
