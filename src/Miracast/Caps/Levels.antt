-- ===== src/Miracast/Caps/Levels.antt =====
-- crates/castr-miracast/src/source/caps.rs: which formats of a display carry which mode, said
-- without the source's ranks.
use castr.Base.{ℕ, ◌+◌, ◌*◌, ◌/◌, ◌%◌, ◌≤◌, ◌<◌, ◌≡◌, ◌⊎◌, ◌↔◌, arith, true, false, some}
use castr.Base.Strings.{u32_bound}
use castr.Miracast.Caps.{VideoMode, VideoCodecCaps}
use castr.Miracast.Caps.Choice.{
  macroblock_rate, required_level, level_rank, rank_above, profile_of, can_carry,
}

-- Macroblocks of 16 by 16 pixels a second, in 32 bits.
abbrev pub macroblocks : VideoMode → ℕ
macroblocks m = (m.width + 15) / 16 * ((m.height + 15) / 16) * m.fps % u32_bound

-- The bit of the lowest level that carries a mode: 3.1, 3.2, 4 or 4.2, by the macroblocks a second.
abbrev pub Needs : VideoMode → ℕ → Type 0
Needs m r =
    ((r ≡ 1) × (macroblocks m ≤ 108000))
    ⊎ ((r ≡ 2) × (108000 < macroblocks m) × (macroblocks m ≤ 216000))
    ⊎ ((r ≡ 4) × (216000 < macroblocks m) × (macroblocks m ≤ 245760))
    ⊎ ((r ≡ 16) × (245760 < macroblocks m) × (macroblocks m ≤ 522240))

-- One of a level's bits is the wanted one or a higher one.
abbrev pub Reaches : ℕ → ℕ → Type 0
Reaches r level =
    (level / 16 % 2 ≡ 1)
    ⊎ ((r ≤ 8) × (level / 8 % 2 ≡ 1))
    ⊎ ((r ≤ 4) × (level / 4 % 2 ≡ 1))
    ⊎ ((r ≤ 2) × (level / 2 % 2 ≡ 1))
    ⊎ ((r ≤ 1) × (level % 2 ≡ 1))

-- The profile that is sent: the baseline one if the display has it, else the high one.
abbrev pub Encodes : ℕ → ℕ → Type 0
Encodes chosen profile =
    ((chosen ≡ 1) × (profile % 2 ≡ 1)) ⊎ ((chosen ≡ 2) × (profile % 2 ≡ 0) × (profile / 2 % 2 ≡ 1))

-- A format has one of the two profiles, and a level that is high enough.
abbrev pub Carries : ℕ → VideoCodecCaps → Type 0
Carries r c = ((c.profile % 2 ≡ 1) ⊎ (c.profile / 2 % 2 ≡ 1)) × Reaches r c.level

pub required_level-Needs : (m : VideoMode) (r : ℕ) → (required_level m ≡ some r) ↔ Needs m r
unfolding required_level macroblock_rate
required_level-Needs m r = ground arith

level_rank-Reaches :
    (m : VideoMode) (r level : ℕ)
    → Needs m r
    → (rank_above (level_rank r) (level_rank level) ≡ false) ↔ Reaches r level
unfolding level_rank
level_rank-Reaches m r level n = ground arith

pub can_carry-Carries :
    (m : VideoMode) (r : ℕ) (c : VideoCodecCaps) → Needs m r → (can_carry r c ≡ true) ↔ Carries r c
unfolding can_carry profile_of
can_carry-Carries m r c n = ground (arith, level_rank-Reaches m r c.level n)

pub can_carry-Encodes :
    (r : ℕ) (c : VideoCodecCaps) → can_carry r c ≡ true → Encodes (profile_of c.profile) c.profile
unfolding can_carry profile_of
can_carry-Encodes r c h = ground arith
