-- ===== src/Go.antt =====
-- Go's errors, and the actions that are built from them.
pub mod Result
pub mod Exec
pub mod Program
