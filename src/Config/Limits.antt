-- ===== src/Config/Limits.antt =====
-- The bound on concurrent kickoff scans (__kickoff_service_factory).
use cxone_flow_buildwork.Prelude.{ℕ, ◌≤◌, Option, arith}
use cxone_flow_buildwork.Config.{max_concurrent_scans}

-- Whatever is configured, the number lies from 1 to 10, and is the configured one if that does.
pub max_concurrent_scans_bounds :
    (configured : Option ℕ)
    → (1 ≤ max_concurrent_scans configured) × (max_concurrent_scans configured ≤ 10)
unfolding max_concurrent_scans
max_concurrent_scans_bounds configured = ground arith
