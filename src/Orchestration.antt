-- ===== src/Orchestration.antt =====
pub mod Types
pub mod Scan
