-- ===== src/Media/Bitrate.antt =====
-- crates/castr-media/src/bitrate.rs: the receiver's reports in, bitrate and resolution out.
-- The floating-point numbers are a parameter: the type, the operations that the code calls, and the
-- constants that it writes.
pub mod Bounds
use castr.Base.{
  ℕ, ◌-◌, ◌+◌, ◌*◌, ◌/◌, ◌%◌, ◌^◌, min, max, Bool, true, ◌&&◌, Option, none, some, List, [], ◌∷◌,
  ltb, leb, ◌==◌, if◌then◌else◌, length, get_or, unwrap_or,
}
use castr.Base.Words.{add32}
use castr.Proto.Control.{Mode, game, quality, Stats}

abbrev pub min_bitrate : ℕ
min_bitrate = 1000000

abbrev pub cut_guard_us : ℕ
cut_guard_us = 500000

abbrev pub clean_raise_us : ℕ
clean_raise_us = 1000000

abbrev pub floor_step_down_us : ℕ
floor_step_down_us = 2000000

abbrev pub clean_step_up_us : ℕ
clean_step_up_us = 5000000

abbrev pub queue_step_down_us : ℕ
queue_step_down_us = 1000000

abbrev pub max_step_up_wait_us : ℕ
max_step_up_wait_us = 60000000

-- `f64`: what the code uses of it.
pub record Floats : Type 1 where
  pub F : Type 0
  pub from_u32 : ℕ → F
  pub div : F → F → F
  pub mul : F → F → F
  pub lt : F → F → Bool
  pub to_u32 : F → ℕ
  pub c0 : F
  pub c0_005 : F
  pub c0_02 : F
  pub c0_7 : F
  pub c0_85 : F

pub record Resolution : Type 0 where
  pub width : ℕ
  pub height : ℕ

pub record Decision : Type 0 where
  pub bitrate_bps : ℕ
  pub resolution : Resolution

pub record BitrateController : Type 0 where
  pub ceiling : ℕ
  pub bitrate : ℕ
  pub ladder : List Resolution
  pub rung : ℕ
  pub mode : Mode
  pub last_cut_us : Option ℕ
  pub clean_since_us : Option ℕ
  pub at_floor_since_us : Option ℕ
  pub last_raise_us : Option ℕ
  pub last_step_up_us : Option ℕ
  pub queue_high_since_us : Option ℕ
  pub step_up_wait_us : ℕ

-- `(width * native.height / native.width) & !1`
unfoldable pub rung_of : Resolution → ℕ → Resolution
rung_of native width =
    let height = width * native.height % 2 ^ 32 / native.width in
    record { width = width; height = height - height % 2 }

-- The `for` loop over the widths.
unfoldable pub rungs : Resolution → List ℕ → List Resolution
rungs native [] = []
rungs native (width ∷ rest) =
    if ltb width native.width then rung_of native width ∷ rungs native rest else rungs native rest

-- `none` is the panic of `clamp` where the limits are in the wrong order.
unfoldable pub new : ℕ → ℕ → Resolution → Mode → Option BitrateController
new ceiling_bps initial_bps native mode =
    if ltb ceiling_bps min_bitrate
    then none
    else some (record {
      ceiling = ceiling_bps;
      bitrate = min (max initial_bps min_bitrate) ceiling_bps;
      ladder = native ∷ rungs native (1280 ∷ 960 ∷ []);
      rung = 0;
      mode = mode;
      last_cut_us = none;
      clean_since_us = none;
      at_floor_since_us = none;
      last_raise_us = none;
      last_step_up_us = none;
      queue_high_since_us = none;
      step_up_wait_us = clean_step_up_us;
    })

unfoldable pub set_mode : BitrateController → Mode → BitrateController
set_mode c game = record c { mode = game }
set_mode c quality = record c { mode = quality; rung = 0 }

-- The index is within the ladder in every state that the code reaches (Bitrate/Bounds).
unfoldable pub current : BitrateController → Decision
current c = record {
  bitrate_bps = c.bitrate;
  resolution = get_or c.ladder c.rung (record { width = 0; height = 0 });
}

-- `is_none_or(|t| now_us.saturating_sub(t) >= wait)`
unfoldable pub is_past : Option ℕ → ℕ → ℕ → Bool
is_past none now_us wait = true
is_past (some t) now_us wait = leb wait (now_us - t)

-- `now_us.saturating_sub(since) >= wait`
abbrev pub has_lasted : ℕ → ℕ → ℕ → Bool
has_lasted since now_us wait = leb wait (now_us - since)

module _ (fl : Floats) where
  open fl use {F, from_u32, div, mul, lt, to_u32, c0, c0_005, c0_02, c0_7, c0_85}

  unfoldable pub loss_of : Stats → F
  loss_of stats =
      let total = add32 stats.fragments_lost stats.fragments_received in
      if total == 0 then c0 else div (from_u32 stats.fragments_lost) (from_u32 total)

  unfoldable pub is_clean : F → Stats → Bool
  is_clean loss stats = lt loss c0_005 && leb stats.decode_queue_depth 1

  unfoldable pub cut_by : F → BitrateController → ℕ → BitrateController
  cut_by factor c now_us = record c {
    bitrate = max (to_u32 (mul (from_u32 c.bitrate) factor)) min_bitrate;
    last_cut_us = some now_us;
  }

  -- The cut for loss, or else the smaller one for a deep queue, at most once in the guard time.
  unfoldable pub cut : F → Stats → BitrateController → ℕ → BitrateController
  unfolding cut_by is_past
  cut loss stats c now_us =
      let cut_allowed = is_past c.last_cut_us now_us cut_guard_us in
      if lt c0_02 loss && cut_allowed
      then cut_by c0_7 c now_us
      else if ltb 3 stats.decode_queue_depth && cut_allowed
      then cut_by c0_85 c now_us
      else c

-- The rise by a twentieth of the ceiling, after a second without trouble.
unfoldable pub raise : Bool → BitrateController → ℕ → BitrateController
raise clean c now_us =
    if clean
    then (let since = unwrap_or c.clean_since_us now_us in
        let c' : BitrateController = record c { clean_since_us = some since } in
        if has_lasted (unwrap_or c.last_raise_us since) now_us clean_raise_us
          && ltb c.bitrate c.ceiling
        then record c' {
          bitrate = min (add32 c.bitrate (c.ceiling / 20)) c.ceiling;
          last_raise_us = some now_us;
        }
        else c')
    else record c { clean_since_us = none; last_raise_us = none }

-- A queue that stays deep though nothing is lost.
unfoldable pub step_down_queue : Bool → BitrateController → ℕ → BitrateController
step_down_queue deep c now_us =
    if deep
    then (let since = unwrap_or c.queue_high_since_us now_us in
        let c' : BitrateController = record c { queue_high_since_us = some since } in
        if has_lasted since now_us queue_step_down_us && ltb (c.rung + 1) (length c.ladder)
        then record c' {
          rung = c.rung + 1;
          queue_high_since_us = some now_us;
          step_up_wait_us = min (c.step_up_wait_us * 2 % 2 ^ 64) max_step_up_wait_us;
        }
        else c')
    else record c { queue_high_since_us = none }

-- A bitrate that stays at its floor.
unfoldable pub step_down_floor : BitrateController → ℕ → BitrateController
step_down_floor c now_us =
    if c.bitrate == min_bitrate
    then (let since = unwrap_or c.at_floor_since_us now_us in
        let c' : BitrateController = record c { at_floor_since_us = some since } in
        if has_lasted since now_us floor_step_down_us && ltb (c.rung + 1) (length c.ladder)
        then record c' { rung = c.rung + 1; at_floor_since_us = some now_us }
        else c')
    else record c { at_floor_since_us = none }

-- `self.last_step_up_us.map_or(since, |t| t.max(since))`
abbrev pub step_ref : Option ℕ → ℕ → ℕ
step_ref none since = since
step_ref (some t) since = max t since

unfoldable pub step_up : BitrateController → ℕ → BitrateController
step_up c now_us = elim c.clean_since_us [
  | none ↦ c
  | some since ↦
      if has_lasted (step_ref c.last_step_up_us since) now_us c.step_up_wait_us && ltb 0 c.rung
      then record c { rung = c.rung - 1; last_step_up_us = some now_us }
      else c
]

-- Only the game mode moves along the ladder.
unfoldable pub adapt : Mode → Bool → BitrateController → ℕ → BitrateController
unfolding step_down_queue step_down_floor step_up
adapt quality deep c now_us = c
adapt game deep c now_us = step_up (step_down_floor (step_down_queue deep c now_us) now_us) now_us

unfoldable pub is_same : Decision → Decision → Bool
is_same a b =
    a.bitrate_bps == b.bitrate_bps
    && a.resolution.width == b.resolution.width
    && a.resolution.height == b.resolution.height

module _ (fl : Floats) where
  open fl use {lt, c0_005}

  -- The state behind a report.
  unfoldable pub update : BitrateController → Stats → ℕ → BitrateController
  update c stats now_us =
      let loss = loss_of fl stats in
      let c1 = cut fl loss stats c now_us in
      let c2 = raise (is_clean fl loss stats) c1 now_us in
      adapt c2.mode (ltb 3 stats.decode_queue_depth && lt loss c0_005) c2 now_us

  unfoldable pub on_stats : BitrateController → Stats → ℕ → BitrateController × Option Decision
  on_stats c stats now_us =
      let after = update c stats now_us in
      (after, (if is_same (current after) (current c) then none else some (current after)))
