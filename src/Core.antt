-- ===== src/Core.antt =====
-- app/core: the parts that every request meets.
pub mod RequestId
