-- ===== src/Common.antt =====
-- The shared vocabulary of common/include/common: instruments, enums, orders and trades.
pub mod Types
pub mod Order
pub mod Names
