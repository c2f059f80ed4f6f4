-- ===== src/Protocol/Startup.antt =====
-- The loop over the configuration file (src/fss_manager.c) with the workers that it starts
-- (src/worker_process.c).
pub mod Poll
pub mod Collect
pub mod Found
pub mod Report
pub mod Passed
pub mod Start
pub mod Round
pub mod Ends
pub mod Phase
pub mod Lost
