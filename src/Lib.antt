-- ===== src/Lib.antt =====
-- tsf-sync keeps the TSF clocks of WiFi cards together. The repository has two programs. `tsf-sync`
-- (src/main.rs) discovers the cards, loads the kernel module tsf_ptp, which gives a card a PTP clock,
-- and starts the sync: phc2sys processes (mode ptp), the module's own loop (mode kernel) or a thread on
-- io_uring (mode iouring). `tsf-sync-debugfs` (src/bin/tsf_sync_debugfs) reads and writes the TSF
-- registers through debugfs in a real-time loop.
--
-- The tool (Tool):
--   Tool/Float        the f64 as a parameter, with the range of its cast to i64
--   Tool/Control      control.rs: KalmanFilter1D, Controller, clamp_step; Control/Bounds, Converge
--   Tool/Decimal      debugfs.rs: format_u64_decimal; Decimal/RoundTrip
--   Tool/Hex          asm/hex.rs: Hex/Scalar, Hex/Simd (a vector register as a list of lanes), Hex/Auto
--                     (the dispatch, with the CPU's feature as an argument), Hex/RoundTrip
--   Tool/Debugfs      debugfs.rs: TsfFile; the system calls are the record Kernel, and
--                     Debugfs/Register states what debugfs does behind them as the record TsfRegisters
--   Tool/Syscall      asm/syscall.rs; the instruction is the record Instruction; Syscall/Dispatch:
--                     do_pread and do_pwrite of debugfs.rs
--   Tool/Rt           rt.rs: advance_deadline, setup_rt, sleep_until; Rt/Deadline, Rt/Sleep
--   Tool/Stats        stats.rs: WelfordStats; Stats/Extremes, Stats/Constant
--   Tool/Threading    threading.rs: correct_follower, check_stats, run_single; Threading/Follower,
--                     Threading/Correction (what is written, whatever the clocks do), Threading/Locks, Threading/Together
--   Tool/Parallel     threading.rs: run_parallel, as the steps of the sampler, the workers, the two
--                     barriers and the signal; Parallel/Places and InStep (the places of the
--                     threads fit together), Shutdown, Finish, Cycle, Rounds, Sequential, Refines,
--                     Nearer, Kept, Converge (the registers of the followers), Pace, Onward,
--                     Progress
--   Tool/Main         main.rs and cli.rs: from the parsed arguments to the call of the loop;
--                     Main/Arguments, and Main/Whole, through to the end of the loop
-- The stack (Sync):
--   Sync/Mode         src/sync_mode.rs and detect_active_sync_mode of src/discovery.rs
--   Sync/Discovery    src/discovery.rs; the file system is the record Sysfs
--   Sync/Config       src/config_gen.rs
--   Sync/Module       src/module_loader.rs; the commands are the record Host; Module/Loading,
--                     Module/Listed
--   Sync/Health       src/health.rs, and read_sysfs_counter of src/daemon.rs; Health/Ports,
--                     Health/States
--   Sync/Table        format_table of src/discovery.rs and format_status_table of src/health.rs
--   Sync/Status       status of src/daemon.rs and query_health of src/health.rs
--   Sync/Interval     parse_interval of src/daemon.rs; Interval/Units
--   Sync/IoUring      src/iouring_sync.rs and the packed structs of src/sync_mode.rs; the ring is the
--                     record Ring; IoUring/Index: find_primary_index; Index/Names;
--                     IoUring/Plan, Wire, and Device, which states what /dev/tsf_sync does behind the
--                     ring as the record Device; IoUring/Settled, the cycle behind a cycle,
--                     and IoUring/Lasting, all the cycles
--   Sync/Process      src/ptp4l.rs; the child processes are the record Processes;
--                     Process/Stop, Process/Children (what the system does with the children, as
--                     the record Children)
--   Sync/Daemon       src/daemon.rs: start, stop, run_daemon; Daemon/Start, Daemon/Launch,
--                     Daemon/Owned, Daemon/Synced
--   Sync/Uring        the branches of src/daemon.rs for mode C, with the thread of src/iouring_sync.rs;
--                     /dev/tsf_sync and its ring are the record Chardev; Uring/Shutdown,
--                     and Uring/Cycles, the thread beside the loop
--   Sync/Command      src/main.rs: run
-- Prelude has the numbers, lists, texts and words that they share, and Examples the concrete runs.
--
-- A stateful function takes the state of its system and gives it back beside its result; `none` in
-- place of a result is a panic where a comment says so. Integers wrap around as in a release build. A
-- loop on an atomic flag is a function of the values that its tests load. `carry_all` takes fuel, a
-- round more than the seconds in its sum, which Rt/Deadline shows to be enough; `write_digits` counts
-- the bytes left in its buffer of 21, which Decimal/RoundTrip shows to hold every u64; `sleep_until`
-- takes fuel for the calls that it makes, of which the source has no bound.
--
-- A thread of run_parallel makes one step at a time; a barrier is for all the threads, each of which
-- waits at it once in a cycle, so its opening is a step that all the threads make.
--
-- Not modelled: the parsing of the arguments by clap, the forwarding of the output of child processes,
-- the log, and the kernel module, which is C. The running of the TSFs between the calls: TsfRegisters and
-- Device have them change by the writes alone, so that what is shown with them is of the values that
-- are written and not of the time that the calls take; Threading/Correction needs neither. Sync/Daemon and Sync/Command are the programs built without
-- the feature iouring.
pub mod Prelude
pub mod Tool
pub mod Sync
pub mod Examples
