-- ===== src/Tests.antt =====
-- Runs of the definitions, and the theorems at concrete inputs.
pub mod Fixture
pub mod Wire
pub mod Fields
pub mod Rows
pub mod Histories
pub mod Live
pub mod Clients
pub mod Connections
