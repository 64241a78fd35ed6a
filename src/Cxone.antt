-- ===== src/Cxone.antt =====
-- CxOneService and its GroupingService (cxone_service/__init__.py, cxone_service/grouping.py).
pub mod Groups
pub mod Project
pub mod Scans
pub mod Reports
pub mod Engines
mod Examples
