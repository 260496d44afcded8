-- ===== src/Examples.antt =====
-- The theorems at concrete inputs: a float, the registers of debugfs and a sysfs, and the runs.
pub mod Hosts
pub mod Tools
pub mod Stack
pub mod Children
pub mod Threads
pub mod Commands
pub mod Device
pub mod Daemon
pub mod Loop
pub mod Ports
pub mod Syscalls
pub mod Uring
pub mod Intervals
pub mod Settled
pub mod Whole
pub mod Names
pub mod Convergence
pub mod Lasting
pub mod Started
pub mod Listing
pub mod Threaded
pub mod Sleeps
pub mod Correction
