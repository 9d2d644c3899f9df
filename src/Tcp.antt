-- ===== src/Tcp.antt =====
-- src/framework/tcp and inc/framework/tcp: sockets and connections.
pub mod Api
pub mod Connection
pub mod Net
pub mod Server
