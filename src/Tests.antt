-- ===== src/Tests.antt =====
-- The theorems at concrete inputs, and runs of the definitions.
pub mod Inputs
pub mod Limits
pub mod Gate
pub mod Tokens
pub mod Counting
pub mod Deploy
pub mod Apps
pub mod Calls
pub mod Stored
pub mod Pages
pub mod Cloud
pub mod Audit
