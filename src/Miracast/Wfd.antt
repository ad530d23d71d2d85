-- ===== src/Miracast/Wfd.antt =====
-- crates/castr-miracast/src/wfd.rs: the capabilities that the sink states, and the bodies of
-- parameters.
pub mod Methods
use castr.Base.{
  ℕ, ◌/◌, ◌%◌, Bool, Option, none, some, List, [], ◌∷◌, ◌++◌, map, ◌==◌, if◌then◌else◌, not,
  is_empty,
}
use castr.Base.Bytes.{Bytes, u16_from_be}
use castr.Base.Text.{ascii, decimal}
use castr.Base.Strings.{
  trim, lines, split_once, eq_ignore_ascii_case, parse_unsigned, u32_bound, hex_upper, hex_lower,
}

pub record VideoFormats : Type 0 where
  pub cea : ℕ
  pub vesa : ℕ
  pub hh : ℕ
  pub profile : ℕ
  pub level : ℕ

abbrev pub only_720p30 : VideoFormats
only_720p30 = record { cea = 32; vesa = 0; hh = 0; profile = 2; level = 4 }

pub record AudioCodecs : Type 0 where
  pub lpcm_modes : ℕ

abbrev pub lpcm_48k_stereo : AudioCodecs
lpcm_48k_stereo = record { lpcm_modes = 2 }

pub record ClientPorts : Type 0 where
  pub rtp_port : ℕ

pub record Capabilities : Type 0 where
  pub video : VideoFormats
  pub audio : AudioCodecs
  pub ports : ClientPorts
  pub max_bitrate_kbps : ℕ
  pub latency_management : Bool
  pub format_change : Bool

abbrev pub text_line : Bytes → Bytes
text_line s = s ++ (13 ∷ 10 ∷ [])

unfoldable pub video_line : VideoFormats → Bytes
video_line v = text_line (
    ascii "wfd_video_formats: 40 00 "
    ++ (hex_upper 2 v.profile
        ++ (32
            ∷ (hex_upper 2 v.level
                ++ (32
                    ∷ (hex_upper 8 v.cea
                        ++ (32
                            ∷ (hex_upper 8 v.vesa
                                ++ (32
                                    ∷ (hex_upper 8 v.hh
                                        ++ ascii " 00 0000 0000 00 none none"))))))))))

unfoldable pub capabilities_body : Capabilities → Bytes
capabilities_body c =
    video_line c.video
    ++ (text_line
          (ascii "wfd_audio_codecs: LPCM " ++ (hex_upper 8 c.audio.lpcm_modes ++ ascii " 00"))
        ++ (text_line (ascii "wfd_content_protection: none")
            ++ (text_line (
                  ascii "wfd_client_rtp_ports: RTP/AVP/UDP;unicast "
                  ++ (decimal c.ports.rtp_port ++ ascii " 0 mode=play"))
                ++ (text_line (ascii "microsoft_max_bitrate: " ++ decimal c.max_bitrate_kbps)
                    ++ ((if c.latency_management
                          then text_line
                              (ascii "microsoft_latency_management_capability: supported")
                          else [])
                        ++ (if c.format_change
                            then text_line (ascii "microsoft_format_change_support: supported")
                            else []))))))

-- One line of a body, which is trimmed and not empty.
unfoldable pub parameter_of : Bytes → Bytes × Bytes
parameter_of line = elim (split_once 58 line) [ some (k, v) ↦ (trim k, trim v) | none ↦ (line, []) ]

drop_empty : List Bytes → List Bytes
drop_empty [] = []
drop_empty (l ∷ ls) = let rest = drop_empty ls in if is_empty l then rest else l ∷ rest

unfoldable pub parse_parameter_body : Bytes → List (Bytes × Bytes)
unfolding drop_empty
parse_parameter_body body = map parameter_of (drop_empty (map trim (lines body)))

pub record DeviceInfo : Type 0 where
  pub session_available : Bool
  pub rtsp_port : ℕ
  pub max_throughput_mbps : ℕ

-- The flags are a primary sink, and a session that is free.
unfoldable pub device_info_subelement : DeviceInfo → Bytes
device_info_subelement d =
    ascii "0006"
    ++ (hex_lower 4 (if d.session_available then 17 else 1)
        ++ (hex_lower 4 d.rtsp_port ++ hex_lower 4 d.max_throughput_mbps))

pub data DeviceKind : Type 0 where
  source : DeviceKind
  primary_sink : DeviceKind
  secondary_sink : DeviceKind
  dual_role : DeviceKind

pub record DeviceCaps : Type 0 where
  pub kind : DeviceKind
  pub session_available : Bool
  pub content_protection : Bool
  pub rtsp_port : ℕ
  pub max_throughput_mbps : ℕ

unfoldable pub kind_of : ℕ → DeviceKind
kind_of bits =
    if bits == 0
    then source
    else if bits == 1
    then primary_sink
    else if bits == 2
    then secondary_sink
    else dual_role

-- The body of the subelement has six bytes at least; a bit of `info` is read by division.
unfoldable pub parse_device_info : Bytes → Option DeviceCaps
unfolding kind_of
parse_device_info (b0 ∷ b1 ∷ b2 ∷ b3 ∷ b4 ∷ b5 ∷ more) =
    let info = u16_from_be b0 b1 in
    some (record {
      kind = kind_of (info % 4);
      session_available = info / 16 % 4 == 1;
      content_protection = not (info / 256 % 2 == 0);
      rtsp_port = u16_from_be b2 b3;
      max_throughput_mbps = u16_from_be b4 b5;
    })
parse_device_info _ = none

-- The request in one line with a colon, or `none` where the line says nothing of the bitrate.
bitrate_in : Bytes → Option (Option ℕ)
bitrate_in line = elim (split_once 58 line) [
  | none ↦ none
  | some (name, value) ↦
      if eq_ignore_ascii_case (trim name) (ascii "microsoft_max_bitrate")
      then some (parse_unsigned 10 u32_bound (trim value))
      else none
]

first_bitrate : List Bytes → Option ℕ
unfolding bitrate_in
first_bitrate [] = none
first_bitrate (line ∷ ls) =
    let rest = first_bitrate ls in elim (bitrate_in line) [ none ↦ rest | some answer ↦ answer ]

unfoldable pub parse_max_bitrate_kbps : Bytes → Option ℕ
unfolding first_bitrate
parse_max_bitrate_kbps body = first_bitrate (lines body)
