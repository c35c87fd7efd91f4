-- ===== src/Util.antt =====
-- util/include/util
pub mod Split
mod Examples
