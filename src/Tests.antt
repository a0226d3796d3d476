-- ===== src/Tests.antt =====
-- The theorems at concrete inputs, and runs of the model, on the machine of System/Loopback.
mod Setting
mod Sockets
mod Threads
mod Messaging
mod Reports
mod Examples
mod Topics
mod Structs
mod Programs
mod Untouched
mod Gtests
mod Turns
mod Requesters
