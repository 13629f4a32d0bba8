-- ===== src/Cmd.antt =====
-- The commands of cmd/*.go.
pub mod Flags
pub mod Guard
pub mod Info
pub mod Report
pub mod Migrate
pub mod Commands
pub mod Entry
pub mod Dirs
pub mod Segments
pub mod Delete
pub mod Frame
pub mod Outcome
pub mod Chain
pub mod Clean
