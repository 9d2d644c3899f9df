-- ===== src/App.antt =====
-- src/app: the server itself, on top of the protocol.
pub mod Options
pub mod Process
pub mod File
pub mod Html
pub mod Blacklist
pub mod Schema
pub mod Server
pub mod Main
