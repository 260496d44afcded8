-- ===== src/Tool/Debugfs/Register.antt =====
-- src/bin/tsf_sync_debugfs/debugfs.rs, `read_tsf` and `write_tsf`, over the TSF registers that
-- mac80211's debugfs shows.
use tsf_sync.Prelude.{
  ℕ, zero, suc, ◌+◌, ◌^◌, ◌<◌, ◌≤◌, Bool, true, [], ◌∷◌, ◌++◌, ◌≡◌, refl, ◌∙◌, ap, arith, ◌≢◌,
}
use tsf_sync.Prelude.Lists.{take, replicate, length, All}
use tsf_sync.Prelude.Text.{Bytes}
use tsf_sync.Prelude.Int.{pos}
use tsf_sync.Tool.Decimal.RoundTrip.{format_u64_decimal_lem, IsDigit, value}
use tsf_sync.Tool.Hex.RoundTrip.{tsf_line, parse_hex_auto-tsf_line, length-tsf_line}
use tsf_sync.Tool.Debugfs.{Kernel, TsfFile, ok, read_tsf, write_tsf, read_raw, write_raw, parsed}

-- The files of the debugfs of mac80211: a read gives the line `0x%016llx\n` of the register behind
-- the file, and a write of a decimal number and a newline stores it. The registers are taken
-- to stand still between the calls.
pub record TsfRegisters (k : Kernel) : Type 0 where
  pub tsf : ℕ → k.St → ℕ
  pub store : ℕ → ℕ → k.St → k.St
  pub tsf-lt : (fd : ℕ) (st : k.St) → tsf fd st < 2 ^ 64
  pub pread-line :
      (fd : ℕ) (st : k.St) → k.raw_pread64 fd 64 st ≡ (pos 19, tsf_line (tsf fd st), st)
  pub pwrite-digits :
      (fd : ℕ) (ds : Bytes) (st : k.St)
      → All IsDigit ds
      → 1 ≤ length ds
      → value 0 ds < 2 ^ 64
      → k.raw_pwrite64 fd (ds ++ b'\n' ∷ []) st ≡ (pos (length ds + 1), store fd (value 0 ds) st)
  pub tsf-store : (fd val : ℕ) (st : k.St) → val < 2 ^ 64 → tsf fd (store fd val st) ≡ val
  pub tsf-store_ne :
      (fd fd' val : ℕ) (st : k.St) → fd ≢ fd' → tsf fd' (store fd val st) ≡ tsf fd' st

take-take-append : (n m : ℕ) (s t : Bytes) → length s ≡ n → n ≤ m → take n (take m (s ++ t)) ≡ s
take-take-append zero m [] t len le = refl
take-take-append zero m (c ∷ s) t len le = absurd (omega arith)
take-take-append (suc n) m [] t len le = absurd (omega arith)
take-take-append (suc n) zero (c ∷ s) t len le = absurd (omega arith)
take-take-append (suc n) (suc m) (c ∷ s) t len le =
    ap (λ (u : Bytes). c ∷ u) (take-take-append n m s t (omega arith) (omega arith))

module _ (k : Kernel) (regs : TsfRegisters k) (f : TsfFile) (pread : f.pread_ok ≡ true) where
  open regs use {tsf, store, tsf-lt, pread-line, pwrite-digits, tsf-store, tsf-store_ne}

  -- Through a file that can be read at an offset, `read_tsf` gives the value of the register and
  -- changes nothing.
  pub read_tsf-tsf :
      (has_ssse3 : Bool) (st : k.St) → read_tsf k has_ssse3 f st ≡ (ok (tsf f.fd st), st)
  unfolding read_tsf read_raw
  read_tsf-tsf has_ssse3 st =
      rw (pread, pread-line)
        (rw (
          take-take-append 19 64 (tsf_line (tsf f.fd st)) (replicate 64 0)
              (length-tsf_line (tsf f.fd st)) (omega arith),
          parse_hex_auto-tsf_line has_ssse3 (tsf f.fd st) (tsf-lt f.fd st),
          parsed,
        ))

  write_raw-digits :
      (ds : Bytes) (st : k.St)
      → All IsDigit ds
      → 1 ≤ length ds
      → value 0 ds < 2 ^ 64
      → write_raw k f (ds ++ b'\n' ∷ []) st ≡ (ok tt, store f.fd (value 0 ds) st)
  unfolding write_raw
  write_raw-digits ds st digits some_digit small =
      rw (pread, pwrite-digits f.fd ds st digits some_digit small) (ground arith)

  -- Through such a file, `write_tsf` stores any 64-bit value.
  pub write_tsf-store :
      (val : ℕ) (st : k.St) → val < 2 ^ 64 → write_tsf k f val st ≡ (ok tt, store f.fd val st)
  unfolding write_tsf
  write_tsf-store val st h =
      let (ds, e, (digits, spelled, some_digit, few)) = format_u64_decimal_lem val h in
      rw (e, write_tsf)
        (write_raw-digits ds st digits some_digit (omega arith)
          ∙ ap (λ (v : ℕ). (ok tt, store f.fd v st)) spelled)
