-- ===== src/Tool/Debugfs.antt =====
-- src/bin/tsf_sync_debugfs/debugfs.rs: a TSF file of debugfs, on x86_64. The system calls are the
-- parameter `Kernel`; what they transfer is a list of bytes.
pub mod Register
use tsf_sync.Prelude.{
  ℕ, zero, suc, ◌+◌, ◌-◌, ◌*◌, ◌/◌, ◌%◌, ◌^◌, ◌<◌, ◌≤◌, Bool, true, false, Option, none, some, List,
  [], ◌∷◌, ◌++◌, ◌≡◌, refl, ◌∙◌, arith, not,
}
use tsf_sync.Prelude.Tests.{ltb, ◌==◌, if◌then◌else◌}
use tsf_sync.Prelude.Lists.{take, replicate, length}
use tsf_sync.Prelude.Text.{Bytes}
use tsf_sync.Prelude.Int.{ℤ, pos, negsuc, pos_part, neg_part, ltb_ℤ}
use tsf_sync.Tool.Decimal.{format_u64_decimal}
use tsf_sync.Tool.Hex.Auto.{parse_hex_auto}

-- An `io::Error`: an error number of the system, or `ErrorKind::InvalidData`.
pub data IoError : Type 0 where
  os : ℕ → IoError
  invalid_data : IoError

-- What a call of the program comes to.
pub data Outcome {ℓ} (A : Type ℓ) : Type ℓ where
  ok : A → Outcome A
  err : IoError → Outcome A
  panic : Outcome A

pub record Kernel : Type 1 where
  pub St : Type 0
  pub open_file : Bytes → St → Outcome ℕ × St
  -- the value returned, and the bytes put at the start of the buffer
  pub raw_pread64 : ℕ → ℕ → St → ℤ × Bytes × St
  pub raw_pwrite64 : ℕ → Bytes → St → ℤ × St
  pub lseek : ℕ → St → St
  pub libc_read : ℕ → ℕ → St → ℤ × Bytes × St
  pub libc_write : ℕ → Bytes → St → ℤ × St
  pub errno : St → ℕ

pub record TsfFile : Type 0 where
  pub fd : ℕ
  pub pread_ok : Bool

abbrev pub is_negative : ℤ → Bool
is_negative r = not (neg_part r == 0)

-- `&buf[..n]` of a buffer of zeros at whose start the bytes were put.
abbrev filled : ℕ → ℕ → Bytes → Outcome Bytes
filled size n bytes =
    if ltb size n then panic else ok (take n (take size (bytes ++ replicate size 0)))

abbrev pub parsed : Bool → Outcome Bytes → Outcome ℕ
parsed has_ssse3 (ok bytes) = elim (parse_hex_auto has_ssse3 bytes) [
  | none ↦ err invalid_data
  | some tsf ↦ ok tsf
]
parsed has_ssse3 (err e) = err e
parsed has_ssse3 panic = panic

module _ (k : Kernel) where
  open k use {St, open_file, raw_pread64, raw_pwrite64, lseek, libc_read, libc_write, errno}

  -- `TsfFile::open`
  unfoldable pub open_tsf : Bytes → St → Outcome TsfFile × St
  open_tsf path st =
      let (opened, st1) = open_file path st in
      elim opened [
        | ok fd ↦
            let (r, _, st2) = raw_pread64 fd 1 st1 in
            (ok (record { fd = fd; pread_ok = not (is_negative r) }), st2)
        | err e ↦ (err e, st1)
        | panic ↦ (panic, st1)
      ]

  -- `read_raw`, with the slice that its caller takes.
  unfoldable pub read_raw : TsfFile → ℕ → St → Outcome Bytes × St
  read_raw f size st =
      if f.pread_ok
      then (let (r, bytes, st') = raw_pread64 f.fd size st in
          (if is_negative r then err (os (neg_part r)) else filled size (pos_part r) bytes, st'))
      else (let (r, bytes, st') = libc_read f.fd size (lseek f.fd st) in
          (if is_negative r then err (os (errno st')) else filled size (pos_part r) bytes, st'))

  unfoldable pub read_tsf : Bool → TsfFile → St → Outcome ℕ × St
  read_tsf has_ssse3 f st = let (r, st') = read_raw f 64 st in (parsed has_ssse3 r, st')

  -- `write_raw`: both ways end in the same test, so the -1 of libc's `write` gives error number 1.
  unfoldable pub write_raw : TsfFile → Bytes → St → Outcome (Unit {0}) × St
  write_raw f buf st =
      let (written, st') =
        if f.pread_ok then raw_pwrite64 f.fd buf st else libc_write f.fd buf (lseek f.fd st) in
      (if is_negative written then err (os (neg_part written)) else ok tt, st')

  unfoldable pub write_tsf : TsfFile → ℕ → St → Outcome (Unit {0}) × St
  write_tsf f val st = elim (format_u64_decimal val) [
    | none ↦ (panic, st)
    | some line ↦ write_raw f line st
  ]
