-- ===== src/Util.antt =====
-- util/.
pub mod Numeric
pub mod Types
