-- ===== src/Communication.antt =====
-- communication/: the module that keeps what the robots report about themselves.
pub mod ComModule
pub mod Requests
mod Examples
