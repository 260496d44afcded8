-- ===== src/Examples/Intervals.antt =====
-- Intervals as they are typed.
use tsf_sync.Prelude.{◌≡◌, refl, some, [], ◌∷◌, arith}
use tsf_sync.Prelude.Text.{codes}
use tsf_sync.Sync.Interval.{parse_interval}
use tsf_sync.Sync.Interval.Units.{mins, parse_interval-units}

parse_interval-units_example : parse_interval (codes " 45m\n") ≡ some 2_700_000
parse_interval-units_example =
    parse_interval-units mins (b' ' ∷ []) (b'5' ∷ []) (b'\n' ∷ []) b'4' (refl, tt)
      ((omega arith, omega arith), ((omega arith, omega arith), tt)) (refl, tt)
