-- ===== src/Manager.antt =====
-- The program `fss_manager` (src/fss_manager.c).
pub mod Run
pub mod Workers
pub mod Collect
pub mod Config
pub mod State
pub mod Event
pub mod Dispatch
pub mod Loop
pub mod Phases
pub mod Args
pub mod Fifos
pub mod Program
pub mod Scan
pub mod Command
pub mod Report
