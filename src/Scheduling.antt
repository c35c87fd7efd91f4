-- ===== src/Scheduling.antt =====
-- scheduling: from the traces of a simulation to the robot's schedules.
pub mod Traces
pub mod Parser
pub mod Station
pub mod Waypoint
pub mod Actions
mod Examples
