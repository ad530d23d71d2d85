-- ===== src/Miracast/Caps/Choice.antt =====
-- crates/castr-miracast/src/source/caps.rs: the modes that the source would rather have, and its
-- choice.
use castr.Base.{
  ℕ, ◌+◌, ◌*◌, ◌/◌, ◌%◌, max, Bool, true, false, Option, none, some, List, [], ◌∷◌, ltb, leb, ◌==◌,
  ◌&&◌, ◌||◌, not, if◌then◌else◌, Result, ok, err,
}
use castr.Base.Strings.{u32_bound, u64_bound}
use castr.Proto.Control.{Mode, game, quality}
use castr.Miracast.Caps.{
  VideoMode, mode_eq, video, VideoCodecCaps, SinkCaps, VideoTable, ModeSelection,
}
use castr.Miracast.Caps.Tables.{table_modes, codec_formats, sink_modes}

-- Macroblocks a second, in 32 bits.
unfoldable pub macroblock_rate : VideoMode → ℕ
macroblock_rate m = (m.width + 15) / 16 * ((m.height + 15) / 16) * m.fps % u32_bound

unfoldable pub required_level : VideoMode → Option ℕ
required_level mode =
    let rate = macroblock_rate mode in
    if leb rate 108000
    then some 1
    else if leb rate 216000
    then some 2
    else if leb rate 245760
    then some 4
    else if leb rate 522240
    then some 16
    else none

-- The highest of the bits 0 to 4 of the level that is set.
unfoldable pub level_rank : ℕ → Option ℕ
level_rank level =
    if not (level / 16 % 2 == 0)
    then some 4
    else if not (level / 8 % 2 == 0)
    then some 3
    else if not (level / 4 % 2 == 0)
    then some 2
    else if not (level / 2 % 2 == 0)
    then some 1
    else if not (level % 2 == 0)
    then some 0
    else none

-- `>` of two ranks: `None` is below every `Some`.
abbrev pub rank_above : Option ℕ → Option ℕ → Bool
rank_above none b = false
rank_above (some a) none = true
rank_above (some a) (some b) = ltb b a

-- In 64 bits, and then in 16.
unfoldable pub needs_mbps : VideoMode → ℕ
needs_mbps m = max (m.width * m.height * m.fps % u64_bound / 6000000) 1 % 65536

abbrev pub all_modes : List VideoMode
all_modes =
    video 1920 1080 60
    ∷ video 1920 1080 30
    ∷ video 1280 720 60
    ∷ video 1280 720 30
    ∷ video 1366 768 60
    ∷ video 1366 768 30
    ∷ video 1024 768 60
    ∷ video 1024 768 30
    ∷ video 960 540 60
    ∷ video 960 540 30
    ∷ video 640 480 60
    ∷ video 640 360 60
    ∷ video 640 360 30
    ∷ []

-- Whether the first of two modes goes before the second.
unfoldable pub goes_before : Mode → VideoMode → VideoMode → Bool
goes_before quality a b = ltb b.height a.height || a.height == b.height && ltb b.fps a.fps
goes_before game a b = ltb b.fps a.fps || a.fps == b.fps && ltb b.height a.height

unfoldable pub insert_mode : Mode → VideoMode → List VideoMode → List VideoMode
insert_mode mode m [] = m ∷ []
insert_mode mode m (n ∷ ns) =
    let rest = insert_mode mode m ns in if goes_before mode n m then n ∷ rest else m ∷ n ∷ ns

-- `sort_by`, which keeps the order of equals.
unfoldable pub sort_modes : Mode → List VideoMode → List VideoMode
unfolding insert_mode
sort_modes mode [] = []
sort_modes mode (m ∷ ms) = insert_mode mode m (sort_modes mode ms)

-- `retain`
unfoldable pub within_ceiling : ℕ → List VideoMode → List VideoMode
within_ceiling ceiling [] = []
within_ceiling ceiling (m ∷ ms) =
    let rest = within_ceiling ceiling ms in if leb (needs_mbps m) ceiling then m ∷ rest else rest

unfoldable pub our_modes : Mode → Option ℕ → List VideoMode
our_modes mode none = sort_modes mode all_modes
our_modes mode (some ceiling) = within_ceiling ceiling (sort_modes mode all_modes)

unfoldable pub profile_of : ℕ → ℕ
profile_of profile = if profile % 2 == 1 then 1 else if profile / 2 % 2 == 1 then 2 else 0

unfoldable pub find_mode :
    VideoMode → List (VideoTable × ℕ × VideoMode) → Option (VideoTable × ℕ × VideoMode)
find_mode wanted [] = none
find_mode wanted (e ∷ es) = if mode_eq e.2 wanted then some e else find_mode wanted es

-- Whether a format has a profile that the source encodes, and its level is high enough.
unfoldable pub can_carry : ℕ → VideoCodecCaps → Bool
can_carry required c =
    not (profile_of c.profile == 0) && not (rank_above (level_rank required) (level_rank c.level))

unfoldable pub selection_of :
    ℕ → VideoCodecCaps → Option (VideoTable × ℕ × VideoMode) → Option ModeSelection
selection_of required c none = none
selection_of required c (some (kind, bit, mode)) = some (record {
  mode = mode;
  table = kind;
  bit = bit;
  profile = profile_of c.profile;
  level = required;
})

unfoldable pub selection_in : VideoMode → ℕ → VideoCodecCaps → Option ModeSelection
selection_in wanted required c =
    if can_carry required c
    then selection_of required c (find_mode wanted (table_modes c))
    else none

-- The inner loop, over the display's formats.
unfoldable pub select_codec : VideoMode → ℕ → List VideoCodecCaps → Option ModeSelection
unfolding selection_in
select_codec wanted required [] = none
select_codec wanted required (c ∷ cs) =
    let rest = select_codec wanted required cs in
    elim (selection_in wanted required c) [ none ↦ rest | some s ↦ some s ]

unfoldable pub select_level : VideoMode → Option ℕ → List VideoCodecCaps → Option ModeSelection
select_level wanted none cs = none
select_level wanted (some required) cs = select_codec wanted required cs

-- The outer loop, over the source's modes.
unfoldable pub select_mode : List VideoMode → List VideoCodecCaps → Option ModeSelection
unfolding select_level
select_mode [] cs = none
select_mode (wanted ∷ ms) cs =
    let rest = select_mode ms cs in
    elim (select_level wanted (required_level wanted) cs) [ none ↦ rest | some s ↦ some s ]

pub record NoCommonFormat : Type 0 where
  pub sink_offered : List VideoMode
  pub we_offered : List VideoMode

unfoldable pub choose_selection : SinkCaps → List VideoMode → Result ModeSelection NoCommonFormat
choose_selection sink ours = elim (select_mode ours (codec_formats sink)) [
  | some selection ↦ ok selection
  | none ↦ err (record { sink_offered = sink_modes sink; we_offered = ours })
]

unfoldable pub choose : SinkCaps → List VideoMode → Result VideoMode NoCommonFormat
choose sink ours = elim (choose_selection sink ours) [ ok s ↦ ok s.mode | err e ↦ err e ]
