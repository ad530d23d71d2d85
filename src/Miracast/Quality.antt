-- ===== src/Miracast/Quality.antt =====
-- crates/castr-miracast/src/quality.rs: loss numbers in, a bitrate ceiling out. An `Instant` is its
-- time in microseconds.
pub mod Laws
use castr.Base.{
  ℕ, ◌-◌, ◌+◌, ◌%◌, ◌^◌, Bool, Option, none, some, List, [], ◌∷◌, ltb, leb, ◌==◌, ◌&&◌,
  if◌then◌else◌, get_or, length,
}

abbrev pub ladder : List ℕ
ladder = 8000 ∷ 4000 ∷ 2000 ∷ []

abbrev pub bad_second : ℕ
bad_second = 5

abbrev pub clean_per_step : ℕ
clean_per_step = 10

-- One second.
abbrev pub sample_interval : ℕ
sample_interval = 1000000

pub record BitrateLadder : Type 0 where
  pub rung : ℕ
  pub clean : ℕ
  pub last_loss : ℕ
  pub last_sample : Option ℕ

unfoldable pub new : BitrateLadder
new = record { rung = 0; clean = 0; last_loss = 0; last_sample = none }

-- The index is within the ladder in every state that the code reaches: `Laws` shows it.
unfoldable pub current_kbps : BitrateLadder → ℕ
current_kbps l = get_or ladder l.rung 0

-- A call within a second of the last that counted.
unfoldable pub is_early : BitrateLadder → ℕ → Bool
is_early l now = elim l.last_sample [ none ↦ Bool.false | some t ↦ ltb (now - t) sample_interval ]

-- `sample` behind the rate limit, with the losses since the last call.
unfoldable pub judge : BitrateLadder → ℕ → BitrateLadder × Option ℕ
unfolding current_kbps
judge l delta =
    if leb bad_second delta
    then (let floor = length ladder - 1 in
        if l.rung == floor
        then (record l { clean = 0 }, none)
        else (let l' : BitrateLadder = record l { clean = 0; rung = floor } in
            (l', some (current_kbps l'))))
    else (let clean = (l.clean + 1) % 2 ^ 32 in
        if leb clean_per_step clean && ltb 0 l.rung
        then (let l' : BitrateLadder = record l { clean = 0; rung = l.rung - 1 } in
            (l', some (current_kbps l')))
        else (record l { clean = clean }, none))

unfoldable pub sample : BitrateLadder → ℕ → ℕ → BitrateLadder × Option ℕ
unfolding is_early judge
sample l cumulative_loss now =
    if is_early l now
    then (l, none)
    else judge (record l { last_sample = some now; last_loss = cumulative_loss })
        (cumulative_loss - l.last_loss)
