-- ===== src/Http.antt =====
-- src/framework/http and inc/framework/http: the protocol, on top of the TCP connections.
pub mod Status
pub mod Request
pub mod Receive
pub mod Response
pub mod Send
