-- ===== src/Config.antt =====
-- config/: the configuration files, and the functions that the UPPAAL models call to read them.
pub mod Values
pub mod Store
pub mod Convert
pub mod Wrapper
pub mod Calls
pub mod Stations
mod Examples
