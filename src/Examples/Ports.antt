-- ===== src/Examples/Ports.antt =====
-- What pmc prints of two ports.
use tsf_sync.Prelude.{◌≡◌, refl, List, [], ◌∷◌, map}
use tsf_sync.Prelude.Text.{Bytes, codes}
use tsf_sync.Prelude.Strings.{trim, trim_start, starts_with}
use tsf_sync.Sync.Health.{parse_port_data_set}
use tsf_sync.Sync.Health.States.{reported}
use tsf_sync.Sync.Health.Ports.{
  Report, IsOther, unlines, report_lines, parse_port_data_set-report_lines,
}

abbrev tabs : Bytes
tabs = b'\t' ∷ b'\t' ∷ []

abbrev two_ports : List Report
two_ports =
    record {
      before = codes "pmc" ∷ [];
      identity = codes "a-1";
      between = [];
      state = codes "SLAVE";
    }
    ∷ record {
      before = [];
      identity = codes "b-1";
      between = codes "x" ∷ [];
      state = codes "FAULTY";
    }
    ∷ []

pmc_line : IsOther (codes "pmc")
unfolding starts_with trim trim_start
pmc_line = (((refl, refl), ((refl, refl), ((refl, refl), tt))), refl, refl)

x_line : IsOther (codes "x")
unfolding starts_with trim trim_start
x_line = (((refl, refl), tt), refl, refl)

parse_port_data_set-report_lines_example :
    parse_port_data_set (
      unlines (
        report_lines tabs
          (b' ' ∷ [])
          b' '
          (refl, (refl, tt))
          (refl, (refl, tt))
          two_ports
          (codes "x" ∷ [])))
    ≡ map (λ r. reported r.identity r.state) two_ports
parse_port_data_set-report_lines_example =
    parse_port_data_set-report_lines tabs (b' ' ∷ []) b' ' (refl, (refl, tt)) (refl, (refl, tt))
      ((refl, refl), ((refl, refl), tt)) ((refl, refl), ((refl, refl), tt)) two_ports
      (codes "x" ∷ [])
      (
        (
          (pmc_line, tt),
          (refl, (refl, (refl, tt))),
          tt,
          (refl, (refl, (refl, (refl, (refl, tt))))),
        ),
        (
          (
            tt,
            (refl, (refl, (refl, tt))),
            (x_line, tt),
            (refl, (refl, (refl, (refl, (refl, (refl, tt)))))),
          ),
          tt,
        ),
      )
      (x_line, tt)
