-- ===== src/Bar.antt =====
-- Bars of prices over spans of time: src/bar.
pub mod Time
pub mod Spans
pub mod Bar2
pub mod Generate
pub mod Maker
pub mod Ticks
pub mod Reader
pub mod Cut
pub mod Whole
