-- ===== src/Sync/Config/Primary.antt =====
-- src/config_gen.rs, `select_primary`.
use tsf_sync.Prelude.{
  ◌≤◌, ◌≡◌, ◌≢◌, ◌⊎◌, inl, inr, refl, Bool, true, false, none, some, List, [], ◌∷◌, arith,
}
use tsf_sync.Prelude.Tests.{Bool-cases, Option-cases}
use tsf_sync.Prelude.Lists.{length, All}
use tsf_sync.Prelude.Text.{Bytes}
use tsf_sync.Prelude.Strings.{text_eq, text_eq_iff, text_eq_sound}
use tsf_sync.Sync.Discovery.{WifiCard}
use tsf_sync.Sync.Config.{
  Result, ok, err, primary_not_found, find, is_native, first, is_some, auto, select_primary,
  with_clock,
}

-- The card stands in the list, passes the test, and no card before it does.
abbrev pub IsFirst : (WifiCard → Bool) → List WifiCard → WifiCard → Type 0
IsFirst p [] c = ⊥
IsFirst p (d ∷ ds) c = ((d ≡ c) × (p d ≡ true)) ⊎ ((p d ≡ false) × IsFirst p ds c)

find-IsFirst :
    (p : WifiCard → Bool) (cards : List WifiCard) (c : WifiCard)
    → find p cards ≡ some c
    → IsFirst p cards c
unfolding find
find-IsFirst p [] c h = cc
find-IsFirst p (d ∷ ds) c h = elim (Bool-cases (p d)) [
  | inl e ↦ inl (ground arith, e)
  | inr e ↦ inr (e, find-IsFirst p ds c (ground arith))
]

find-none :
    (p : WifiCard → Bool) (cards : List WifiCard)
    → find p cards ≡ none
    → All (λ d. p d ≡ false) cards
unfolding find
find-none p [] h = tt
find-none p (d ∷ ds) h = (ground arith, find-none p ds (ground arith))

abbrev pub HasClock : WifiCard → Type 0
HasClock c = is_some (c.ptp_clock) ≡ true

IsFirst-HasClock :
    (p : WifiCard → Bool) (cards : List WifiCard) (c : WifiCard)
    → All HasClock cards
    → IsFirst p cards c
    → HasClock c
IsFirst-HasClock p [] c h f = absurd f
IsFirst-HasClock p (d ∷ ds) c (hd, hs) (inl (e, t)) = rw (← e) hd
IsFirst-HasClock p (d ∷ ds) c (hd, hs) (inr (e, f)) = IsFirst-HasClock p ds c hs f

pub with_clock-HasClock : (cards : List WifiCard) → All HasClock (with_clock cards)
unfolding with_clock
with_clock-HasClock [] = tt
with_clock-HasClock (c ∷ cs) = elim (Bool-cases (is_some (c.ptp_clock))) [
  | inl e ↦ rw e (e, with_clock-HasClock cs)
  | inr e ↦ rw e (with_clock-HasClock cs)
]

first-HasClock :
    (cards : List WifiCard)
    → All HasClock cards
    → 1 ≤ length cards
    → (c : WifiCard) × (first cards ≡ some c) × HasClock c
first-HasClock [] h some_card = absurd (omega arith)
first-HasClock (c ∷ cs) (h, hs) some_card = (c, refl, h)

abbrev pub has_phy : Bytes → WifiCard → Bool
has_phy selection c = text_eq c.phy selection

-- What a choice among cards that have clocks comes to.
pub data Choice (cards : List WifiCard) (selection : Bytes) : Result WifiCard → Type 0 where
  named :
      (c : WifiCard)
      → selection ≢ auto
      → IsFirst (has_phy selection) cards c
      → HasClock c
      → Choice cards selection (ok c)
  missing :
      selection ≢ auto
      → All (λ d. has_phy selection d ≡ false) cards
      → Choice cards selection (err (primary_not_found selection))
  own_clock :
      (c : WifiCard)
      → selection ≡ auto
      → IsFirst is_native cards c
      → HasClock c
      → Choice cards selection (ok c)
  fallback :
      (c : WifiCard)
      → selection ≡ auto
      → All (λ d. is_native d ≡ false) cards
      → first cards ≡ some c
      → HasClock c
      → Choice cards selection (ok c)

-- Among at least one card, all with clocks: a selection other than "auto" gives the first card of
-- that name, or the error that names it if there is none; "auto" gives the first card with a native
-- clock, or the first card if none is native. The card that is chosen has a clock.
pub select_primary-Choice :
    (cards : List WifiCard) (selection : Bytes)
    → All HasClock cards
    → 1 ≤ length cards
    → Choice cards selection (select_primary cards selection)
unfolding select_primary
select_primary-Choice cards selection clocks some_card =
    elim (Bool-cases (text_eq selection auto)) [
      | inr other ↦ elim (Option-cases (find (has_phy selection) cards)) [
        | inl e ↦
            rw (other, e)
              (missing (λ a. ground (arith, (text_eq_iff selection auto).1 a))
                (find-none (has_phy selection) cards e))
        | inr (c, e) ↦
            let place = find-IsFirst (has_phy selection) cards c e in
            let clock = IsFirst-HasClock (has_phy selection) cards c clocks place in
            rw (other, e)
              (rw clock
                (named c (λ a. ground (arith, (text_eq_iff selection auto).1 a)) place clock))
      ]
      | inl is_auto ↦
          let same = text_eq_sound selection auto is_auto in
          elim (Option-cases (find is_native cards)) [
            | inl e ↦
                let (c, front, clock) = first-HasClock cards clocks some_card in
                rw (is_auto, e)
                  (rw front (fallback c same (find-none is_native cards e) front clock))
            | inr (c, e) ↦
                let place = find-IsFirst is_native cards c e in
                rw (is_auto, e)
                  (own_clock c same place (IsFirst-HasClock is_native cards c clocks place))
          ]
    ]
