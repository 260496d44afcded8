-- ===== src/Sync/Mode.antt =====
-- src/sync_mode.rs, and `detect_active_sync_mode` of src/discovery.rs.
use tsf_sync.Prelude.{ℕ, ◌+◌, ◌≡◌, refl, Option, none, some, ◌∷◌, []}
use tsf_sync.Prelude.Tests.{if◌then◌else◌}
use tsf_sync.Prelude.Text.{Bytes, codes}
use tsf_sync.Prelude.Strings.{trim, text_eq}

pub data SyncMode : Type 0 where
  ptp : SyncMode
  kernel : SyncMode
  iouring : SyncMode

unfoldable pub as_kernel_param : SyncMode → ℕ
as_kernel_param ptp = 0
as_kernel_param kernel = 1
as_kernel_param iouring = 2

-- `Display`
unfoldable pub mode_text : SyncMode → Bytes
mode_text ptp = codes "ptp"
mode_text kernel = codes "kernel"
mode_text iouring = codes "iouring"

-- `detect_active_sync_mode`, from the text of the parameter, `none` where it cannot be read.
unfoldable pub detect_active_sync_mode : Option Bytes → Option SyncMode
unfolding trim text_eq
detect_active_sync_mode none = none
detect_active_sync_mode (some value) =
    let v = trim value in
    if text_eq v (codes "0")
    then some ptp
    else if text_eq v (codes "1")
    then some kernel
    else if text_eq v (codes "2")
    then some iouring
    else none

-- The line that sysfs shows for a parameter below 10.
abbrev pub param_line : ℕ → Bytes
param_line n = (b'0' + n) ∷ b'\n' ∷ []

-- The mode that was handed to the kernel module is the one read back from its parameter.
pub detect-as_kernel_param :
    (m : SyncMode) → detect_active_sync_mode (some (param_line (as_kernel_param m))) ≡ some m
unfolding detect_active_sync_mode as_kernel_param
detect-as_kernel_param ptp = refl
detect-as_kernel_param kernel = refl
detect-as_kernel_param iouring = refl
