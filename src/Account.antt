-- ===== src/Account.antt =====
-- Trading accounts: src/account.
pub mod Codes
pub mod Vol
pub mod Amt
pub mod Pnl
pub mod Px
pub mod Mods
pub mod Instr
pub mod Base
