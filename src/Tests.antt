-- ===== src/Tests.antt =====
-- The theorems at concrete inputs.
pub mod Times
pub mod Names
pub mod Headers
pub mod Types
pub mod Messages
pub mod Schemas
pub mod Subscribers
pub mod Sessions
pub mod Calls
pub mod Services
pub mod Nodes
pub mod Definitions
