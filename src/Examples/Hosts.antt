-- ===== src/Examples/Hosts.antt =====
-- Concrete parameters of the model: floats that are integers, a kernel whose files are registers, and
-- a sysfs with two radios.
use tsf_sync.Prelude.{◌-◌, ℕ, ◌+◌, ◌%◌, ◌^◌, ◌<◌, ◌≡◌, ◌≢◌, refl, true, [], ◌∷◌, ◌++◌, arith, ap}
use tsf_sync.Prelude.Tests.{◌==◌, if◌then◌else◌}
use tsf_sync.Prelude.Lists.{length}
use tsf_sync.Prelude.Text.{Bytes}
use tsf_sync.Prelude.Int.{ℤ, pos, ltb_ℤ, pos_part, ◌+ℤ◌, ◌-ℤ◌, ◌*ℤ◌, tdiv, wrap64, wrap64-InI64}
use tsf_sync.Tool.Float.{Float}
use tsf_sync.Tool.Decimal.RoundTrip.{value}
use tsf_sync.Tool.Hex.RoundTrip.{tsf_line}
use tsf_sync.Tool.Debugfs.{Kernel, TsfFile, ok}
use tsf_sync.Tool.Debugfs.Register.{TsfRegisters}

abbrev pub int_float : Float
int_float = record {
  F64 = ℤ;
  of_i64 = λ x. x;
  of_u64 = pos;
  to_i64 = wrap64;
  add = ◌+ℤ◌;
  sub = ◌-ℤ◌;
  mul = ◌*ℤ◌;
  div = λ x y. tdiv x (pos_part y);
  sqrt = λ x. x;
  gt = λ x y. ltb_ℤ y x;
  to_i64-InI64 = wrap64-InI64;
}

-- The files' registers, by file descriptor.
abbrev pub Registers : Type 0
Registers = ℕ → ℕ

unfoldable pub set : ℕ → ℕ → Registers → Registers
set fd val st x = if x == fd then val else st x

-- What stands before the newline at the end.
unfoldable pub but_last : Bytes → Bytes
but_last [] = []
but_last (c ∷ []) = []
but_last (c ∷ d ∷ s) = c ∷ but_last (d ∷ s)

pub but_last-append : (s : Bytes) (c : ℕ) → but_last (s ++ c ∷ []) ≡ s
unfolding but_last
but_last-append [] c = refl
but_last-append (a ∷ []) c = refl
but_last-append (a ∷ b ∷ s) c = ap (λ (t : Bytes). a ∷ t) (but_last-append (b ∷ s) c)

pub length-snoc : (s : Bytes) (c : ℕ) → length (s ++ c ∷ []) ≡ length s + 1
length-snoc [] c = refl
length-snoc (a ∷ s) c = ground (arith, length-snoc s c)

-- The digit of a phy.
abbrev pub number_of : Bytes → ℕ
number_of (_ ∷ _ ∷ _ ∷ d ∷ _) = d - b'0'
number_of _ = 0

abbrev pub debugfs : Kernel
debugfs = record {
  St = Registers;
  open_file = λ path st. (ok (3 + number_of path), st);
  raw_pread64 = λ fd n st. (pos 19, tsf_line (st fd % 2 ^ 64), st);
  raw_pwrite64 = λ fd buf st. (pos (length buf), set fd (value 0 (but_last buf)) st);
  lseek = λ fd st. st;
  libc_read = λ fd n st. (pos 19, tsf_line (st fd % 2 ^ 64), st);
  libc_write = λ fd buf st. (pos (length buf), set fd (value 0 (but_last buf)) st);
  errno = λ st. 0;
}

pub set_same : (fd val : ℕ) (st : Registers) → val < 2 ^ 64 → set fd val st fd % 2 ^ 64 ≡ val
unfolding set
set_same fd val st h = ground arith

pub set_other :
    (fd fd' val : ℕ) (st : Registers) → fd ≢ fd' → set fd val st fd' % 2 ^ 64 ≡ st fd' % 2 ^ 64
unfolding set
set_other fd fd' val st h = ground arith

abbrev pub registers : TsfRegisters debugfs
registers = record {
  tsf = λ fd st. st fd % 2 ^ 64;
  store = set;
  tsf-lt = λ fd st. omega arith;
  pread-line = λ fd st. refl;
  pwrite-digits = λ fd ds st digits some_digit small. simp (length-snoc, but_last-append);
  tsf-store = set_same;
  tsf-store_ne = set_other;
}

-- An open file, and registers that stand at 1000 and 0.
abbrev pub follower_file : TsfFile
follower_file = record { fd = 4; pread_ok = true }

unfoldable pub two_registers : Registers
two_registers fd = if fd == 3 then 1000 else 0
