-- ===== src/Miracast/Lifecycle.antt =====
-- crates/castr-miracast/src/lifecycle.rs: who holds the screen when the peer goes away. An
-- `Instant` is its time in microseconds.
pub mod Display
use castr.Base.{ℕ, ◌-◌, Bool, true, false, Option, none, some, List, [], ◌∷◌, ltb, if◌then◌else◌}

-- Thirty seconds.
abbrev pub hold : ℕ
hold = 30000000

pub data Phase : Type 0 where
  advertising streaming holding : Phase

pub data Event : Type 0 where
  connected ended radio_error : Event

pub data Action : Type 0 where
  acquire_display release_display show_reconnecting clear_overlay rebuild_group : Action

pub record Lifecycle : Type 0 where
  pub phase : Phase
  pub holding_since : Option ℕ

unfoldable pub new : Lifecycle
new = record { phase = advertising; holding_since = none }

unfoldable pub holds_display : Lifecycle → Bool
holds_display l = elim l.phase [ advertising ↦ false | streaming ↦ true | holding ↦ true ]

-- The arms of the `match`, by the event and the phase.
on_phase : Lifecycle → Phase → Event → ℕ → Lifecycle × List Action
on_phase l advertising connected now =
    (record l { phase = streaming }, acquire_display ∷ clear_overlay ∷ [])
on_phase l holding connected now =
    (record { phase = streaming; holding_since = none }, clear_overlay ∷ [])
on_phase l streaming connected now = (l, [])
on_phase l streaming ended now =
    (record { phase = holding; holding_since = some now }, show_reconnecting ∷ [])
on_phase l advertising ended now = (l, [])
on_phase l holding ended now = (l, [])
on_phase l phase radio_error now = (
  record { phase = advertising; holding_since = none },
  (if holds_display l
      then release_display ∷ rebuild_group ∷ clear_overlay ∷ []
      else rebuild_group ∷ []),
)

unfoldable pub on : Lifecycle → Event → ℕ → Lifecycle × List Action
unfolding on_phase holds_display
on l e now = on_phase l l.phase e now

unfoldable pub abandon_hold : Lifecycle → Lifecycle × List Action
abandon_hold l = elim l.phase [
  | holding ↦ (record { phase = advertising; holding_since = none }, release_display ∷ [])
  | _ ↦ (l, [])
]

unfoldable pub tick : Lifecycle → ℕ → Lifecycle × List Action
tick l now = elim l.holding_since [
  | none ↦ (l, [])
  | some since ↦
      if ltb (now - since) hold
      then (l, [])
      else (record { phase = advertising; holding_since = none }, release_display ∷ [])
]
