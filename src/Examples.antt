-- ===== src/Examples.antt =====
-- The programs of cpp/examples.
pub mod Simple
pub mod Regex
pub mod Closing
pub mod Structs
pub mod Console
pub mod Rr
pub mod Ps
pub mod Msg
