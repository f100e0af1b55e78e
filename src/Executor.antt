-- ===== src/Executor.antt =====
-- src/executor.rs
pub mod Report
pub mod Topo
pub mod Run
