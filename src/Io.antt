-- ===== src/Io.antt =====
-- Input and output between processes.
pub mod Queue
pub mod Page
