-- ===== src/Miracast/Source/Answers.antt =====
-- crates/castr-miracast/src/source/session.rs: what the source does with the display's answers.
use castr.Base.{
  ℕ, ◌-◌, ◌/◌, ◌%◌, Option, none, some, List, [], ◌∷◌, ◌++◌, ◌==◌, if◌then◌else◌, is_some, Result,
  ok, err,
}
use castr.Base.Bytes.{Bytes}
use castr.Base.Text.{ascii, decimal}
use castr.Base.Strings.{hex_upper}
use castr.Base.Maps.{lookup, remove}
use castr.Miracast.Rtsp.{Message, cseq, request}
use castr.Miracast.Rtsp.Negotiation.{Action, send, teardown}
use castr.Miracast.Caps
use castr.Miracast.Caps.{
  VideoMode, SinkCaps, CapsError, VideoTable, cea_table, vesa_table, hh_table, ModeSelection,
}
use castr.Miracast.Caps.Choice.{our_modes, NoCommonFormat, choose_selection}
use castr.Miracast.Wfd.{text_line}
use castr.Miracast.Source.{
  base_url, SourceConfig, configuring, awaiting_setup, Pending, m1, m3, m4, m5, SourceSession,
  lower, expect,
}

-- The limit in Mbit/s, which the capability body gives in kbit/s; the cast to 16 bits wraps.
abbrev pub kbps_to_mbps : Option ℕ → Option ℕ
kbps_to_mbps none = none
kbps_to_mbps (some k) = some (k / 1000 % 65536)

-- What is left for the picture.
abbrev pub less_audio : Option ℕ → Option ℕ
less_audio none = none
less_audio (some m) = some (m - 3)

-- The masks of the three tables.
abbrev pub masks : VideoTable → ℕ → ℕ × ℕ × ℕ
masks cea_table bit = (bit, 0, 0)
masks vesa_table bit = (0, bit, 0)
masks hh_table bit = (0, 0, bit)

-- The body of M4.
unfoldable pub selection_body : SourceConfig → ModeSelection → Bytes
selection_body cfg chosen =
    let (cea, vesa, hh) = masks chosen.table chosen.bit in
    text_line (
      ascii "wfd_video_formats: 00 00 "
      ++ (hex_upper 2 chosen.profile
          ++ (32
              ∷ (hex_upper 2 chosen.level
                  ++ (32
                      ∷ (hex_upper 8 cea
                          ++ (32
                              ∷ (hex_upper 8 vesa
                                  ++ (32
                                      ∷ (hex_upper 8 hh
                                          ++ ascii " 00 0000 0000 00 none none"))))))))))
    ++ (text_line (ascii "wfd_audio_codecs: LPCM 00000002 00")
        ++ (text_line (ascii "wfd_presentation_URL: " ++ (cfg.presentation_url ++ ascii " none"))
            ++ text_line (
                ascii "wfd_client_rtp_ports: RTP/AVP/UDP;unicast "
                ++ (decimal cfg.rtp_port ++ ascii " 0 mode=play"))))

configure : SourceSession → SinkCaps → ModeSelection → SourceSession × List Action
configure s caps selection =
    let (s1, c) =
      expect (record s { chosen = some selection; sink = some caps; state = configuring }) m4 in
    (s1, send (request (ascii "SET_PARAMETER") base_url c (selection_body s1.cfg selection)) ∷ [])

give_up : SourceSession → Bytes → SourceSession × List Action
give_up s why = (s, teardown why ∷ [])

with_selection :
    SourceSession → SinkCaps → Result ModeSelection NoCommonFormat → SourceSession × List Action
unfolding configure give_up
with_selection s caps (err e) = give_up s (ascii "negotiation: no video format in common")
with_selection s caps (ok selection) =
    if caps.lpcm_modes / 2 % 2 == 0
    then give_up s (ascii "negotiation: no LPCM audio format in common")
    else if is_some caps.content_protection
    then give_up s (ascii "negotiation: the display requires unsupported content protection")
    else configure s caps selection

-- The modes to offer to a display, within its limit and the radio's.
unfoldable pub offer : SourceConfig → SinkCaps → List VideoMode
offer cfg caps =
    our_modes cfg.mode (less_audio (lower cfg.ceiling_mbps (kbps_to_mbps caps.max_bitrate_kbps)))

with_caps : SourceSession → Result SinkCaps CapsError → SourceSession × List Action
unfolding give_up with_selection
with_caps s (err e) =
    give_up s (ascii "negotiation: the display sent capabilities we could not read")
with_caps s (ok caps) = with_selection s caps (choose_selection caps (offer s.cfg caps))

unfoldable pub on_capabilities : SourceSession → Message → SourceSession × List Action
unfolding with_caps
on_capabilities s m = with_caps s (Caps.parse m.body)

trigger_setup : SourceSession → SourceSession × List Action
trigger_setup s =
    let (s1, c) = expect (record s { state = awaiting_setup }) m5 in
    (
      s1,
      send (
            request (ascii "SET_PARAMETER") base_url c
              (text_line (ascii "wfd_trigger_method: SETUP")))
          ∷ [],
    )

-- The answer `200` to a request.
unfoldable pub on_answer : SourceSession → Pending → Message → ℕ → SourceSession × List Action
unfolding trigger_setup
on_answer s m1 m now = (record s { m1_answered = some now }, [])
on_answer s m3 m now = on_capabilities s m
on_answer s m4 m now = trigger_setup s
on_answer s _ m now = (s, [])

unfoldable pub answer_pending :
    SourceSession → ℕ → Option Pending → ℕ → Message → ℕ → SourceSession × List Action
answer_pending s number none status m now = (s, [])
answer_pending s number (some p) status m now =
    let s1 = record s { pending = remove number s.pending } in
    if status == 200
    then on_answer s1 p m now
    else (s1, teardown (ascii "negotiation: the display refused a request") ∷ [])

unfoldable pub on_response : SourceSession → ℕ → Message → ℕ → SourceSession × List Action
unfolding answer_pending
on_response s status m now = elim (cseq m) [
  | none ↦ (s, [])
  | some number ↦ answer_pending s number (lookup number s.pending) status m now
]
