-- ===== src/Util.antt =====
-- The utilities of include/util.
pub mod Data
