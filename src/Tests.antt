-- ===== src/Tests.antt =====
-- Runs of the theorems at concrete inputs.
pub mod Data
pub mod Core
pub mod Gateway
pub mod Tokens
pub mod Agent
pub mod Sessions
pub mod Stores
pub mod Browser
pub mod Telemetry
pub mod Planning
