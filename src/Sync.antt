-- ===== src/Sync.antt =====
-- src/*.rs: discovery of the radios, the configuration of ptp4l, the kernel module, the sync modes
-- and the daemon.
pub mod Mode
pub mod Discovery
pub mod Config
pub mod Module
pub mod Health
pub mod Interval
pub mod IoUring
pub mod Process
pub mod Daemon
pub mod Table
pub mod Status
pub mod Uring
pub mod Command
