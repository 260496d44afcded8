-- ===== src/Examples/Listing.antt =====
-- Two modules as /proc/modules lists them.
use tsf_sync.Prelude.{◌≡◌, refl, true, [], ◌∷◌}
use tsf_sync.Prelude.Strings.{text_eq, contains}
use tsf_sync.Prelude.Text.{codes}
use tsf_sync.Sync.Module.{is_module_loaded_from}
use tsf_sync.Sync.Module.Listed.{Entry, listing, is_module_loaded_from-contains}

abbrev wifi : Entry
wifi = record { name = codes "mac"; rest = codes "9 0 - Live" }

abbrev clock : Entry
clock = record { name = codes "tsf_ptp"; rest = codes "16 0" }

is_module_loaded_from_example :
    is_module_loaded_from (listing (wifi ∷ clock ∷ [])) (codes "tsf-ptp") ≡ true
unfolding contains text_eq
is_module_loaded_from_example =
    is_module_loaded_from-contains (codes "tsf-ptp") (wifi ∷ clock ∷ []) (
      (
        (refl, (refl, (refl, tt))),
        (
          (refl, refl),
          (
            (refl, refl),
            (
              (refl, refl),
              (
                (refl, refl),
                (
                  (refl, refl),
                  (
                    (refl, refl),
                    ((refl, refl), ((refl, refl), ((refl, refl), ((refl, refl), tt)))),
                  ),
                ),
              ),
            ),
          ),
        ),
      ),
      (
        (
          (refl, (refl, (refl, (refl, (refl, (refl, (refl, tt))))))),
          ((refl, refl), ((refl, refl), ((refl, refl), ((refl, refl), tt)))),
        ),
        tt,
      ),
    )
