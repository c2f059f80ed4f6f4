-- ===== src/Worker.antt =====
-- The program `worker_process` (src/worker_process.c).
pub mod Number
pub mod Report
pub mod Files
pub mod Copy
pub mod Main
pub mod Process
