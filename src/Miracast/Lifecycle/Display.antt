-- ===== src/Miracast/Lifecycle/Display.antt =====
-- The screen is taken and given back in turn, and the hold has an end.
use castr.Base.{
  ℕ, ◌-◌, ◌≤◌, ◌<◌, ◌≡◌, ◌≢◌, ◌⊎◌, inl, inr, refl, arith, Bool, true, false, Option, none, some,
  List, [], ◌∷◌, ◌++◌, is_some, Bool-cases, ltb, ◌∙◌,
}
use castr.Miracast.Lifecycle.{
  advertising, streaming, holding, Event, connected, ended, radio_error, Action, acquire_display,
  release_display, show_reconnecting, clear_overlay, rebuild_group, Lifecycle, new, holds_display,
  on, abandon_hold, tick, hold,
}

-- The clock of the hold runs exactly in the phase that holds.
abbrev pub IsValid : Lifecycle → Type 0
IsValid l = elim l.phase [
  | advertising ↦ l.holding_since ≡ none
  | streaming ↦ l.holding_since ≡ none
  | holding ↦ is_some l.holding_since ≡ true
]

-- Everything that can be done to the machine.
pub data Call : Type 0 where
  event : Event → ℕ → Call
  abandon : Call
  at : ℕ → Call

unfoldable pub step : Lifecycle → Call → Lifecycle × List Action
unfolding on abandon_hold tick
step l (event e now) = on l e now
step l abandon = abandon_hold l
step l (at now) = tick l now

-- The screen as the arbiter sees it: `none` is a double acquisition or a release of what is not
-- held.
abbrev pub perform : Bool → List Action → Option Bool
perform held [] = some held
perform true (acquire_display ∷ rest) = none
perform false (acquire_display ∷ rest) = perform true rest
perform true (release_display ∷ rest) = perform false rest
perform false (release_display ∷ rest) = none
perform held (show_reconnecting ∷ rest) = perform held rest
perform held (clear_overlay ∷ rest) = perform held rest
perform held (rebuild_group ∷ rest) = perform held rest

unfoldable pub run : Lifecycle → List Call → Lifecycle × List Action
run l [] = (l, [])
run l (c ∷ cs) = let (l', out) = step l c in let (l'', rest) = run l' cs in (l'', out ++ rest)

step-IsValid :
    (l : Lifecycle) (c : Call)
    → IsValid l
    → IsValid (step l c).0
      × (perform (holds_display l) (step l c).1 ≡ some (holds_display (step l c).0))
unfolding step holds_display
step-IsValid l (event connected now) v = ground arith
step-IsValid l (event ended now) v = ground arith
step-IsValid l (event radio_error now) v = ground arith
step-IsValid l abandon v = ground arith
step-IsValid l (at now) v = ground arith

perform-append :
    (held : Bool) (xs ys : List Action) {h : Bool}
    → perform held xs ≡ some h
    → perform held (xs ++ ys) ≡ perform h ys
perform-append held [] ys e = ground arith
perform-append true (acquire_display ∷ xs) ys e = cc
perform-append false (acquire_display ∷ xs) ys e = perform-append true xs ys e
perform-append true (release_display ∷ xs) ys e = perform-append false xs ys e
perform-append false (release_display ∷ xs) ys e = cc
perform-append held (show_reconnecting ∷ xs) ys e = perform-append held xs ys e
perform-append held (clear_overlay ∷ xs) ys e = perform-append held xs ys e
perform-append held (rebuild_group ∷ xs) ys e = perform-append held xs ys e

run-perform :
    (l : Lifecycle) (cs : List Call)
    → IsValid l
    → IsValid (run l cs).0
      × (perform (holds_display l) (run l cs).1 ≡ some (holds_display (run l cs).0))
unfolding run
run-perform l [] v = (v, refl)
run-perform l (c ∷ cs) v =
    let (w, e) = step-IsValid l c v in
    let (x, q) = run-perform (step l c).0 cs w in
    (x, perform-append (holds_display l) (step l c).1 (run (step l c).0 cs).1 e ∙ q)

-- Over any calls from the start, the screen is never taken twice nor given back while it is not
-- held, and whoever follows the actions holds it exactly when the machine streams or holds; the
-- clock of the hold runs exactly while it holds.
pub perform-run :
    (cs : List Call)
    → IsValid (run new cs).0 × (perform false (run new cs).1 ≡ some (holds_display (run new cs).0))
unfolding new holds_display
perform-run cs = run-perform new cs refl

-- A hold of thirty seconds is at its end, whoever holds: the screen is given back once, and the
-- machine advertises. Before that, and in the other phases, `tick` does nothing.
pub tick-hold :
    (l : Lifecycle) (now : ℕ)
    → IsValid l
    → ((t : ℕ) × (l.phase ≡ holding)
        × (l.holding_since ≡ some t)
        × (hold ≤ now - t)
        × (tick l now ≡ (new, release_display ∷ [])))
      ⊎ ((tick l now ≡ (l, []))
          × ((l.phase ≢ holding) ⊎ ((t : ℕ) × (l.holding_since ≡ some t) × (now - t < hold))))
unfolding tick new
tick-hold l now v = go l.holding_since refl
  where
    go :
        (o : Option ℕ)
        → l.holding_since ≡ o
        → ((t : ℕ) × (l.phase ≡ holding)
            × (l.holding_since ≡ some t)
            × (hold ≤ now - t)
            × (tick l now ≡ (new, release_display ∷ [])))
          ⊎ ((tick l now ≡ (l, []))
              × ((l.phase ≢ holding) ⊎ ((t : ℕ) × (l.holding_since ≡ some t) × (now - t < hold))))
    go none e = inr (ground arith, inl (λ h. ground arith))
    go (some t) e = elim (Bool-cases (ltb (now - t) hold)) [
      | inl b ↦ inr (ground arith, inr (t, e, ground arith))
      | inr b ↦ inl (t, ground arith, e, ground arith, ground arith)
    ]
