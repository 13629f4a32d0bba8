-- ===== src/Tests.antt =====
-- Concrete runs: a host that keeps the tables in memory, and each property at one input.
pub mod Memory
pub mod States
pub mod Clean
pub mod Delete
pub mod History
pub mod Flags
pub mod Commands
pub mod Shown
pub mod Records
pub mod Run
pub mod Queries
pub mod Segments
