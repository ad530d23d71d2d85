-- ===== src/Miracast/Pairing/Screen.antt =====
-- What is on the screen while sources come and go.
use castr.Base.{ℕ, ◌≡◌, refl, true, Option, none, some, List, [], ◌∷◌}
use castr.Base.Bytes.{Bytes}
use castr.Miracast.Pairing.{
  is_valid, Show, pin, clear, nothing, Pairing, new, mint, provision_with, taken, group_up,
  provisioning, failed, joined,
}
use castr.Miracast.Pairing.Digits.{is_valid-pin_from}

-- What happens to the sink, with the entropy for a PIN.
pub data Event : Type 0 where
  up : ℕ → Event
  provision : ℕ → Event
  fail : ℕ → Event
  join : Event

abbrev pub answer : Pairing → Event → Pairing × Show
answer p (up entropy) = group_up p entropy
answer p (provision entropy) = provisioning p entropy
answer p (fail entropy) = failed p entropy
answer p join = joined p

-- What a screen shows after the answer is done on it.
abbrev pub shown : Option Bytes → Show → Option Bytes
shown screen (pin digits) = some digits
shown screen clear = none
shown screen nothing = screen

-- The pairing and the screen after a run.
unfoldable pub run : Pairing → Option Bytes → List Event → Pairing × Option Bytes
run p screen [] = (p, screen)
run p screen (e ∷ es) = let (p', show) = answer p e in run p' (shown screen show) es

-- A PIN on offer is one that a source accepts.
abbrev pub IsGood : Option Bytes → Type 0
IsGood none = Unit
IsGood (some d) = is_valid d ≡ true

-- The screen shows what is on offer.
abbrev pub IsHonest : Pairing → Option Bytes → Type 0
IsHonest p screen = (screen ≡ p.current) × IsGood p.current

mint-IsHonest :
    (o screen : Option Bytes) (entropy : ℕ)
    → screen ≡ o
    → IsGood o
    → IsHonest (mint o entropy).0 (shown screen (mint o entropy).1)
unfolding mint
mint-IsHonest none screen entropy e g = (refl, is_valid-pin_from entropy)
mint-IsHonest (some d) screen entropy e g = (e, g)

provision_with-IsHonest :
    (o screen : Option Bytes) (entropy : ℕ)
    → screen ≡ o
    → IsGood o
    → IsHonest (provision_with o entropy).0 (shown screen (provision_with o entropy).1)
unfolding provision_with mint
provision_with-IsHonest none screen entropy e g = (refl, is_valid-pin_from entropy)
provision_with-IsHonest (some d) screen entropy e g = (e, g)

taken-shown : (o screen : Option Bytes) → screen ≡ o → shown screen (taken o) ≡ none
unfolding taken
taken-shown none screen e = e
taken-shown (some d) screen e = refl

answer-IsHonest :
    (p : Pairing) (screen : Option Bytes) (e : Event)
    → IsHonest p screen
    → IsHonest (answer p e).0 (shown screen (answer p e).1)
unfolding group_up provisioning failed joined mint
answer-IsHonest p screen (up entropy) h = mint-IsHonest p.current screen entropy h.0 h.1
answer-IsHonest p screen (provision entropy) h =
    provision_with-IsHonest p.current screen entropy h.0 h.1
answer-IsHonest p screen (fail entropy) h = (refl, is_valid-pin_from entropy)
answer-IsHonest p screen join h = (taken-shown p.current screen h.0, tt)

run-IsHonest_from :
    (p : Pairing) (screen : Option Bytes) (es : List Event)
    → IsHonest p screen
    → let (p', screen') = run p screen es in IsHonest p' screen'
unfolding run
run-IsHonest_from p screen [] h = h
run-IsHonest_from p screen (e ∷ es) h =
    run-IsHonest_from (answer p e).0 (shown screen (answer p e).1) es (answer-IsHonest p screen e h)

-- However groups come up, and sources provision, fail and join: the screen shows exactly the PIN
-- that is on offer, if one is, and it is one that a source accepts.
pub run-IsHonest : (es : List Event) → let (p, screen) = run new none es in IsHonest p screen
run-IsHonest es = run-IsHonest_from new none es (refl, tt)
