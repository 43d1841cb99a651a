-- ===== src/Utils.antt =====
-- src/utils.
pub mod Random
