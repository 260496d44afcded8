-- ===== src/Tool.antt =====
-- src/bin/tsf_sync_debugfs: the tool that keeps follower radios in step with a master radio
-- through the TSF files of mac80211's debugfs.
pub mod Float
pub mod Control
pub mod Decimal
pub mod Hex
pub mod Rt
pub mod Stats
pub mod Syscall
pub mod Debugfs
pub mod Threading
pub mod Parallel
pub mod Main
