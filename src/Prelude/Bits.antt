-- ===== src/Prelude/Bits.antt =====
-- `|` on numbers whose ones do not meet.
use Prim.Native.Nat.{
  ℕ, zero, suc, ◌+◌, ◌*◌, ◌/◌, ◌^◌, ◌≤◌, ◌<◌, max, bit_or, digits, bit_or-bitwise,
}
use mathlib.Core.Path.{◌≡◌, ◌∙◌}
use native.Mathlib.Omega.{arith}
use native.Mathlib.Nat.{pow-suc}

mul-pow-suc : (m k : ℕ) → m * 2 ^ suc k ≡ 2 * (m * 2 ^ k)
mul-pow-suc m k = rw (pow-suc 2 k) (omega arith)

-- A multiple of 2 ^ k and a number below 2 ^ k, by recursion on the digits of the first.
digits-mul-pow :
    (n k a m d : ℕ) → a ≤ n → a ≡ m * 2 ^ k → d < 2 ^ k → digits (λ b. b) max n a d ≡ a + d
digits-mul-pow zero k a m d le e lt = omega arith
digits-mul-pow (suc n) k zero m d le e lt = omega arith
digits-mul-pow (suc n) zero (suc a) m d le e lt = omega (
  arith,
  digits-mul-pow n zero (suc a / 2) (suc a / 2) (d / 2) (omega arith) (omega arith) (omega arith),
)
digits-mul-pow (suc n) (suc k) (suc a) m d le e lt =
    let twice : suc a ≡ 2 * (m * 2 ^ k) = e ∙ mul-pow-suc m k in
    let below : d < 2 * 2 ^ k = omega (arith, pow-suc 2 k) in
    let rest = digits-mul-pow n k (suc a / 2) m (d / 2) (omega arith) (omega arith) (omega arith) in
    omega arith

-- The low four bits are put beside the others.
pub bit_or-mul_sixteen : (a d : ℕ) → d < 16 → bit_or (a * 16) d ≡ a * 16 + d
bit_or-mul_sixteen a d h =
    bit_or-bitwise (a * 16) d ∙ digits-mul-pow (a * 16) 4 (a * 16) a d (omega arith) (omega arith) h
