-- ===== src/Miracast/Caps.antt =====
-- crates/castr-miracast/src/source/caps.rs: what a display says it can show, and the source's
-- choice.
pub mod Tables
pub mod Choice
pub mod Masks
pub mod Levels
pub mod Selection
pub mod Preference
use castr.Base.{
  ℕ, Bool, Option, none, some, List, [], ◌∷◌, ◌==◌, ◌&&◌, if◌then◌else◌, Result, ok, err, get_elem?,
  unwrap_or,
}
use castr.Base.Bytes.{Bytes, bytes_eq}
use castr.Base.Text.{ascii}
use castr.Base.Strings.{trim, split, split_whitespace, parse_unsigned, u16_bound, u32_bound}
use castr.Miracast.Wfd.{parse_parameter_body}

-- `rtsp::VideoMode`.
pub record VideoMode : Type 0 where
  pub width : ℕ
  pub height : ℕ
  pub fps : ℕ

abbrev pub mode_eq : VideoMode → VideoMode → Bool
mode_eq a b = a.width == b.width && a.height == b.height && a.fps == b.fps

pub record VideoCodecCaps : Type 0 where
  pub profile : ℕ
  pub level : ℕ
  pub cea : ℕ
  pub vesa : ℕ
  pub hh : ℕ

pub record SinkCaps : Type 0 where
  pub cea : ℕ
  pub vesa : ℕ
  pub hh : ℕ
  pub profile : ℕ
  pub level : ℕ
  pub lpcm_modes : ℕ
  pub rtp_port : ℕ
  pub max_bitrate_kbps : Option ℕ
  pub content_protection : Option Bytes
  pub video_formats : List VideoCodecCaps

pub data CapsError : Type 0 where
  no_video_formats : CapsError
  malformed_video_formats : Bytes → CapsError

pub data VideoTable : Type 0 where
  cea_table : VideoTable
  vesa_table : VideoTable
  hh_table : VideoTable

pub record ModeSelection : Type 0 where
  pub mode : VideoMode
  pub table : VideoTable
  pub bit : ℕ
  pub profile : ℕ
  pub level : ℕ

abbrev pub video : ℕ → ℕ → ℕ → VideoMode
video width height fps = record { width = width; height = height; fps = fps }

-- `get` of `parse`: the first parameter of the name.
unfoldable pub find_param : List (Bytes × Bytes) → Bytes → Option Bytes
find_param [] name = none
find_param ((k, v) ∷ rest) name = if bytes_eq k name then some v else find_param rest name

hex8 : Bytes → Option ℕ
hex8 s = parse_unsigned 16 256 s

hex32 : Bytes → Option ℕ
hex32 s = parse_unsigned 16 u32_bound s

infixl 1 ◌>>=◌
abbrev ◌>>=◌ {ℓ κ} : {A : Type ℓ} {B : Type κ} → Option A → (A → Option B) → Option B
none >>= f = none
some a >>= f = f a

codec_of : List Bytes → Option VideoCodecCaps
unfolding hex8 hex32
codec_of (f0 ∷ f1 ∷ f2 ∷ f3 ∷ f4 ∷ more) = do
  p ← hex8 f0
  l ← hex8 f1
  c ← hex32 f2
  v ← hex32 f3
  h ← hex32 f4
  some (record { profile = p; level = l; cea = c; vesa = v; hh = h })
codec_of _ = none

-- The formats after the first, which alone begins with two further fields.
later_codecs : List Bytes → Option (List VideoCodecCaps)
unfolding codec_of
later_codecs [] = some []
later_codecs (t ∷ ts) = do c ← codec_of (split_whitespace t); cs ← later_codecs ts; some (c ∷ cs)

after_two : List Bytes → List Bytes
after_two (a ∷ b ∷ fields) = fields
after_two _ = []

-- The first format, and all of them.
codecs : List Bytes → Option (VideoCodecCaps × List VideoCodecCaps)
unfolding codec_of later_codecs after_two
codecs [] = none
codecs (t ∷ ts) = do
  c ← codec_of (after_two (split_whitespace t))
  cs ← later_codecs ts
  some (c, c ∷ cs)

-- The word after the first of a parameter.
second_word : Option Bytes → Option Bytes
second_word o = do v ← o; get_elem? (split_whitespace v) 1

protection_of : Option Bytes → Option Bytes
protection_of none = none
protection_of (some v) = if bytes_eq (trim v) (ascii "none") then none else some v

sink_of : List (Bytes × Bytes) → VideoCodecCaps × List VideoCodecCaps → SinkCaps
unfolding hex32 second_word protection_of
sink_of params (first, formats) = record {
  cea = first.cea;
  vesa = first.vesa;
  hh = first.hh;
  profile = first.profile;
  level = first.level;
  lpcm_modes = unwrap_or (second_word (find_param params (ascii "wfd_audio_codecs")) >>= hex32) 0;
  rtp_port =
      unwrap_or
        (second_word (find_param params (ascii "wfd_client_rtp_ports"))
          >>= (λ p. parse_unsigned 10 u16_bound p))
        5000;
  max_bitrate_kbps =
      find_param params (ascii "microsoft_max_bitrate")
      >>= (λ v. parse_unsigned 10 u32_bound (trim v));
  content_protection = protection_of (find_param params (ascii "wfd_content_protection"));
  video_formats = formats;
}

parse_params : List (Bytes × Bytes) → Result SinkCaps CapsError
unfolding codecs sink_of
parse_params params = elim (find_param params (ascii "wfd_video_formats")) [
  | none ↦ err no_video_formats
  | some v ↦ elim (codecs (split 44 v)) [
    | none ↦ err (malformed_video_formats v)
    | some c ↦ ok (sink_of params c)
  ]
]

unfoldable pub parse : Bytes → Result SinkCaps CapsError
unfolding parse_params
parse body = parse_params (parse_parameter_body body)
