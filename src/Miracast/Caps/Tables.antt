-- ===== src/Miracast/Caps/Tables.antt =====
-- crates/castr-miracast/src/source/caps.rs: the tables of modes, and the modes that a mask names.
use castr.Base.{
  ℕ, zero, suc, ◌+◌, ◌/◌, ◌%◌, ◌^◌, Option, none, some, List, [], ◌∷◌, ◌++◌, map, leb, ◌==◌,
  if◌then◌else◌, length, get_elem?,
}
use castr.Miracast.Caps.{
  VideoMode, mode_eq, video, VideoCodecCaps, SinkCaps, VideoTable, cea_table, vesa_table, hh_table,
}

unfoldable pub cea_mode : ℕ → Option VideoMode
cea_mode bit =
    if bit == 0
    then some (video 640 480 60)
    else if bit == 1
    then some (video 720 480 60)
    else if bit == 3
    then some (video 720 576 50)
    else if bit == 5
    then some (video 1280 720 30)
    else if bit == 6
    then some (video 1280 720 60)
    else if bit == 7
    then some (video 1920 1080 30)
    else if bit == 8
    then some (video 1920 1080 60)
    else if bit == 10
    then some (video 1280 720 25)
    else if bit == 11
    then some (video 1280 720 50)
    else if bit == 12
    then some (video 1920 1080 25)
    else if bit == 13
    then some (video 1920 1080 50)
    else if bit == 15
    then some (video 1280 720 24)
    else if bit == 16
    then some (video 1920 1080 24)
    else none

-- Even places have 30 pictures a second, odd ones 60.
with_rate : ℕ → Option (ℕ × ℕ) → Option VideoMode
with_rate bit none = none
with_rate bit (some (width, height)) = some (video width height (if bit % 2 == 0 then 30 else 60))

vesa_sizes : List (ℕ × ℕ)
vesa_sizes =
    (800, 600)
    ∷ (800, 600)
    ∷ (1024, 768)
    ∷ (1024, 768)
    ∷ (1152, 864)
    ∷ (1152, 864)
    ∷ (1280, 768)
    ∷ (1280, 768)
    ∷ (1280, 800)
    ∷ (1280, 800)
    ∷ (1360, 768)
    ∷ (1360, 768)
    ∷ (1366, 768)
    ∷ (1366, 768)
    ∷ (1280, 1024)
    ∷ (1280, 1024)
    ∷ (1400, 1050)
    ∷ (1400, 1050)
    ∷ (1440, 900)
    ∷ (1440, 900)
    ∷ (1600, 900)
    ∷ (1600, 900)
    ∷ (1600, 1200)
    ∷ (1600, 1200)
    ∷ (1680, 1050)
    ∷ (1680, 1050)
    ∷ (1920, 1200)
    ∷ (1920, 1200)
    ∷ []

unfoldable pub vesa_mode : ℕ → Option VideoMode
unfolding with_rate vesa_sizes
vesa_mode bit = with_rate bit (get_elem? vesa_sizes bit)

hh_sizes : List (ℕ × ℕ)
hh_sizes =
    (800, 480)
    ∷ (800, 480)
    ∷ (854, 480)
    ∷ (854, 480)
    ∷ (864, 480)
    ∷ (864, 480)
    ∷ (640, 360)
    ∷ (640, 360)
    ∷ (960, 540)
    ∷ (960, 540)
    ∷ (848, 480)
    ∷ (848, 480)
    ∷ []

unfoldable pub hh_mode : ℕ → Option VideoMode
unfolding with_rate hh_sizes
hh_mode bit = with_rate bit (get_elem? hh_sizes bit)

unfoldable pub codec_formats : SinkCaps → List VideoCodecCaps
codec_formats c =
    if leb (length c.video_formats) 1
    then record { profile = c.profile; level = c.level; cea = c.cea; vesa = c.vesa; hh = c.hh } ∷ []
    else c.video_formats

unfoldable pub mode_at : VideoTable → ℕ → Option VideoMode
mode_at cea_table bit = cea_mode bit
mode_at vesa_table bit = vesa_mode bit
mode_at hh_table bit = hh_mode bit

-- The modes of `count` bits of a mask from `bit` on, each with its table and its bit.
unfoldable pub mask_modes : VideoTable → ℕ → ℕ → ℕ → List (VideoTable × ℕ × VideoMode)
mask_modes table mask bit zero = []
mask_modes table mask bit (suc count) =
    let rest = mask_modes table mask (bit + 1) count in
    if mask / 2 ^ bit % 2 == 0
    then rest
    else elim (mode_at table bit) [ none ↦ rest | some mode ↦ (table, 2 ^ bit, mode) ∷ rest ]

unfoldable pub table_modes : VideoCodecCaps → List (VideoTable × ℕ × VideoMode)
table_modes c =
    mask_modes cea_table c.cea 0 32
    ++ (mask_modes vesa_table c.vesa 0 32 ++ mask_modes hh_table c.hh 0 32)

modes_of : List VideoCodecCaps → List VideoMode
modes_of [] = []
modes_of (c ∷ cs) = map (λ e. e.2) (table_modes c) ++ modes_of cs

unfoldable pub sink_modes : SinkCaps → List VideoMode
unfolding modes_of
sink_modes c = modes_of (codec_formats c)

mode_bit_from : VideoMode → ℕ → ℕ → Option ℕ
mode_bit_from mode bit zero = none
mode_bit_from mode bit (suc count) =
    let rest = mode_bit_from mode (bit + 1) count in
    elim (cea_mode bit) [ none ↦ rest | some m ↦ if mode_eq m mode then some (2 ^ bit) else rest ]

unfoldable pub mode_bit : VideoMode → Option ℕ
unfolding mode_bit_from
mode_bit mode = mode_bit_from mode 0 32
