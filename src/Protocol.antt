-- ===== src/Protocol.antt =====
-- The two ends of the pipe between a worker (src/worker_process.c) and the manager
-- (src/fss_manager.c): the report that the one writes is what the other reads.
pub mod Lines
pub mod RoundTrip
pub mod Errors
pub mod Delivery
pub mod Commands
pub mod Startup
