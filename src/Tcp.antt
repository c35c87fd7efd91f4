-- ===== src/Tcp.antt =====
-- tcp: connections that carry framed messages, and the server that accepts them.
pub mod Connection
pub mod Server
pub mod Framing
pub mod Stream
pub mod Faults
pub mod Closing
mod Examples
