-- ===== src/PortDiscovery.antt =====
-- port_discovery: the registry of the robots' ports.
pub mod Service
pub mod Registry
pub mod Errors
mod Examples
