-- ===== src/TextMsg.antt =====
-- The texts of messages and errors (textmsg/*.go).
mod Info
mod ErrorText
mod Errors
pub use Info.*
pub use ErrorText.*
pub use Errors.*
