-- ===== src/Sync/IoUring/Lasting.antt =====
-- src/iouring_sync.rs, `run`: the cycles of the loop, one behind the other.
use tsf_sync.Prelude.{ℕ, ◌≡◌, List}
use tsf_sync.Prelude.Int.{ℤ}
use tsf_sync.Sync.IoUring.{TsfSnapshot, Ring}
use tsf_sync.Sync.IoUring.Device.{Device, Writes}
use tsf_sync.Sync.IoUring.Settled.{Gives, cards}

module _ {ring : Ring} {threshold_ns : ℤ} (dev : Device ring threshold_ns) where
  open dev use {tsf}

  -- A device on which a read moves no card and gives whole snapshots of the same cards, at most 128,
  -- as they stand, and which takes every write of whole structs.
  pub record Standing : Type 0 where
    pub indices : List ℕ
    pub shots : ring.St → List TsfSnapshot
    pub behind : ring.St → ring.St
    pub gives : (st : ring.St) → Gives dev (shots st) st (behind st)
    pub same : (st : ring.St) → cards dev (shots st) ≡ indices
    pub still : (i : ℕ) (st : ring.St) → tsf i (behind st) ≡ tsf i st
    pub writes : Writes dev
