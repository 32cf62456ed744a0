-- ===== src/Td.antt =====
-- Front ends that orders are sent through: src/td.
pub mod OrderRtn
pub mod Helper
pub mod Engine
pub mod Ctp
pub mod Median
pub mod Fake
pub mod IdQueue
