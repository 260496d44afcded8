-- ===== src/Tool/Stats/Constant.antt =====
-- src/bin/tsf_sync_debugfs/stats.rs, `rms`: the value on a constant error.
use tsf_sync.Prelude.{ℕ, zero, suc, ◌+◌, ◌%◌, ◌^◌, ◌<◌, ◌≤◌, false, ◌≡◌, refl, arith}
use tsf_sync.Prelude.Tests.{◌==◌}
use tsf_sync.Prelude.Lists.{replicate}
use tsf_sync.Prelude.Int.{ℤ}
use tsf_sync.Tool.Float.{Float}
use tsf_sync.Tool.Stats.{WelfordStats, update, update_all, new, rms}

-- Rules of IEEE 754 on a finite value `x` and zero.
pub record ZeroLaws (fl : Float) (x : fl.F64) : Type 0 where
  pub sub-zero : fl.sub x (fl.of_u64 0) ≡ x
  pub sub_self : fl.sub x x ≡ fl.of_u64 0
  pub div-one : fl.div x (fl.of_u64 1) ≡ x
  pub zero-add : fl.add (fl.of_u64 0) x ≡ x
  pub add-zero : fl.add x (fl.of_u64 0) ≡ x
  pub add-mul-zero : fl.add (fl.of_u64 0) (fl.mul x (fl.of_u64 0)) ≡ fl.of_u64 0
  pub add-mul-zero_zero : fl.add (fl.of_u64 0) (fl.mul (fl.of_u64 0) (fl.of_u64 0)) ≡ fl.of_u64 0
  pub zero-div : (n : ℕ) → 1 ≤ n → fl.div (fl.of_u64 0) (fl.of_u64 n) ≡ fl.of_u64 0
  pub sqrt-zero : fl.sqrt (fl.of_u64 0) ≡ fl.of_u64 0

module _ {fl : Float} (err step : ℤ) (laws : ZeroLaws fl (fl.of_i64 err)) where
  open laws use {
    sub-zero, sub_self, div-one, zero-add, add-zero, add-mul-zero, add-mul-zero_zero, zero-div,
    sqrt-zero,
  }

  -- The accumulator has seen `k` times the error, and nothing else.
  record Steady (k : ℕ) (st : WelfordStats fl) : Type 0 where
    count : st.n ≡ k
    mean : st.mean ≡ fl.of_i64 err
    spread : st.m2 ≡ fl.of_u64 0

  update-first : Steady 1 (update new err step)
  unfolding update new
  update-first = record {
    count = refl;
    mean = simp (sub-zero, div-one, zero-add);
    spread = simp (sub-zero, div-one, zero-add, sub_self, add-mul-zero);
  }

  update-Steady :
      (k : ℕ) (st : WelfordStats fl)
      → k + 1 < 2 ^ 64
      → Steady k st
      → Steady (k + 1) (update st err step)
  unfolding update
  update-Steady k st small s =
      let quotient : fl.div (fl.of_u64 0) (fl.of_u64 ((st.n + 1) % 2 ^ 64)) ≡ fl.of_u64 0 =
        zero-div ((st.n + 1) % 2 ^ 64) (omega (arith, s.count)) in
      record {
        count = omega (arith, s.count);
        mean = simp (s.mean, sub_self, quotient, add-zero);
        spread = simp (s.mean, s.spread, sub_self, quotient, add-zero, add-mul-zero_zero);
      }

  update_all-Steady :
      (j k : ℕ) (st : WelfordStats fl)
      → k + j < 2 ^ 64
      → Steady k st
      → Steady (k + j) (update_all st (replicate j (err, step)))
  unfolding update_all
  update_all-Steady zero k st small s = record {
    count = omega (arith, s.count);
    mean = s.mean;
    spread = s.spread;
  }
  update_all-Steady (suc j) k st small s =
      let rest =
        update_all-Steady j (k + 1) (update st err step) (omega arith)
          (update-Steady k st (omega arith) s) in
      record { count = omega (arith, rest.count); mean = rest.mean; spread = rest.spread }

  rms-Steady : (k : ℕ) (st : WelfordStats fl) → 1 ≤ k → Steady k st → rms st ≡ fl.of_u64 0
  unfolding rms
  rms-Steady k st some_obs s =
      let seen : (st.n == 0) ≡ false = ground (arith, s.count) in
      rw (seen, s.spread, zero-div st.n (omega (arith, s.count))) sqrt-zero

  -- However large the error is, if every observation has the same one then the value that is called
  -- the root mean square, and compared with the warning threshold, is zero.
  pub rms-replicate :
      (k : ℕ)
      → k + 1 < 2 ^ 64
      → rms {fl = fl} (update_all new (replicate (suc k) (err, step))) ≡ fl.of_u64 0
  unfolding update_all
  rms-replicate k small =
      rms-Steady (1 + k) (update_all (update new err step) (replicate k (err, step))) (omega arith)
        (update_all-Steady k 1 (update new err step) (omega arith) update-first)
