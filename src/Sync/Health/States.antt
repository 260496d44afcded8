-- ===== src/Sync/Health/States.antt =====
-- src/health.rs, `parse_port_data_set`: the states of a port beside the health that each is taken for.
use tsf_sync.Prelude.{◌≡◌, refl, ap, ◌∙◌, sym, inl, inr, true, none, List, [], ◌∷◌, arith}
use tsf_sync.Prelude.Tests.{if◌then◌else◌, Bool-cases}
use tsf_sync.Prelude.Text.{Bytes, codes}
use tsf_sync.Prelude.Strings.{text_eq, text_eq_sound, contains}
use tsf_sync.Sync.Health.{
  HealthState, healthy, converging, failed, ClockStatus, health_of, status_of,
}

-- The states that do not count as converging.
abbrev pub classes : List (Bytes × HealthState)
classes =
    (codes "DISABLED", failed)
    ∷ (codes "FAULTY", failed)
    ∷ (codes "MASTER", healthy)
    ∷ (codes "SLAVE", healthy)
    ∷ []

abbrev pub class_in : List (Bytes × HealthState) → Bytes → HealthState
class_in [] state = converging
class_in ((name, h) ∷ rows) state = if text_eq state name then h else class_in rows state

health_of_named :
    (name state : Bytes)
    → health_of name ≡ class_in classes name
    → text_eq state name ≡ true
    → health_of state ≡ class_in classes state
health_of_named name state at e =
    let same : state ≡ name = text_eq_sound state name e in
    ap health_of same ∙ at ∙ ap (class_in classes) (sym same)

disabled_at : health_of (codes "DISABLED") ≡ class_in classes (codes "DISABLED")
unfolding health_of contains text_eq
disabled_at = refl

faulty_at : health_of (codes "FAULTY") ≡ class_in classes (codes "FAULTY")
unfolding health_of contains text_eq
faulty_at = refl

text_eq_comm : (s t : Bytes) → text_eq s t ≡ text_eq t s
unfolding text_eq
text_eq_comm [] [] = refl
text_eq_comm [] (b ∷ t) = refl
text_eq_comm (a ∷ s) [] = refl
text_eq_comm (a ∷ s) (b ∷ t) = ground (arith, text_eq_comm s t)

health_of-class_in : (state : Bytes) → health_of state ≡ class_in classes state
unfolding health_of contains
health_of-class_in state = elim (Bool-cases (text_eq state (codes "DISABLED"))) [
  | inl e ↦ health_of_named (codes "DISABLED") state disabled_at e
  | inr d ↦ elim (Bool-cases (text_eq state (codes "FAULTY"))) [
    | inl e ↦ health_of_named (codes "FAULTY") state faulty_at e
    | inr f ↦
        ground (arith, text_eq_comm state (codes "DISABLED"), text_eq_comm state (codes "FAULTY"))
  ]
]

-- What is reported of a port: its name, its state as it is, no times, and the class of the state.
abbrev pub reported : Bytes → Bytes → ClockStatus
reported port state = record {
  port = port;
  port_state = state;
  offset_ns = none;
  path_delay_ns = none;
  health = class_in classes state;
}

pub status_of-reported : (port state : Bytes) → status_of port state ≡ reported port state
status_of-reported port state =
    ap
      (λ (h : HealthState). record {
        port = port;
        port_state = state;
        offset_ns = none;
        path_delay_ns = none;
        health = h;
      })
      (health_of-class_in state)
