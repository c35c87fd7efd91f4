-- ===== src/Order.antt =====
-- order/ and util/include/util/pick_random.hpp: random orders of stations.
pub mod Random
pub mod Generator
pub mod Arguments
mod Examples
