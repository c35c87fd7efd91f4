-- ===== src/Robot.antt =====
-- robot/: what the robots tell each other, and the orchestrator that fills the static configuration.
pub mod Info
pub mod InfoMap
pub mod Orchestrator
mod Examples
