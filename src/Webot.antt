-- ===== src/Webot.antt =====
-- webot/controllers/waypoints_runner/: the controller of a robot in Webots.
pub mod Geo
pub mod Controller
pub mod Server
pub mod Simulation
mod Examples
