-- ===== src/Risk.antt =====
-- The risk checks before an order is sent: src/risk. Each check is a function of the order and of
-- the account's records, and returns the code that the source returns, 0 where the order passes.
pub mod Kept
pub mod Instr
pub mod Limits
pub mod Intensity
pub mod Stg
pub mod Gate
pub mod Top
pub mod Exposure
pub mod Summary
pub mod InstrTop
pub mod Conf
pub mod Nodes
pub mod SelfTrade
