-- ===== src/Wbt.antt =====
-- wbt-translator: from a Webots world file to the data of the UPPAAL models.
pub mod World
pub mod Apsp
pub mod DistanceMatrix
pub mod Adjlist
pub mod Parser
mod Examples
