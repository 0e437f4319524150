-- ===== src/Tests.antt =====
-- Concrete runs: each theorem with conditions applied where they hold.
pub mod Queues
pub mod Buffers
pub mod Parsing
pub mod State
pub mod Machine
pub mod Fixed
pub mod Settings
pub mod Tokens
pub mod Queries
pub mod Analysis
pub mod Program
pub mod Scanning
