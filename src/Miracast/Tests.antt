-- ===== src/Miracast/Tests.antt =====
-- Runs of the Wi-Fi Display components, and their theorems at concrete inputs.
use castr.Base.{
  ℕ, zero, suc, ◌-◌, ◌+◌, ◌≤◌, ◌<◌, ◌≡◌, ◌≢◌, ◌⊎◌, refl, arith, false, none, some, List, [], ◌∷◌,
  ◌++◌, length, replicate, All,
}
use castr.Base.Bytes.{Bytes}
use castr.Miracast.Rtp.{Packet, Reorder, new, push}
use castr.Miracast.Rtp.Emission.{Placed, Gives}
use castr.Miracast.Rtp.Window.{IsPast, IsHeld, push_all, push_lem, push_all-Consecutive}
use castr.Miracast.RtpPack
use castr.Miracast.RtpPack.RoundTrip.{parse_all, payloads, parse_all-push}
use castr.Miracast.Lifecycle
use castr.Miracast.Lifecycle.{
  holding, connected, ended, release_display, Lifecycle, holds_display, tick, hold,
}
use castr.Miracast.Lifecycle.Display.{
  IsValid, Call, event, at, perform, run, perform-run, tick-hold,
}
use castr.Miracast.Quality.{BitrateLadder, sample}
use castr.Miracast.Quality.Laws
use castr.Miracast.Quality.Laws.{Early, Judged, sample-moves}
use castr.Miracast.Lpcm.{sample_bytes, frame, payload, samples_of}
use castr.Miracast.Lpcm.Samples.{samples_of-payload}
use castr.Miracast.Dhcp.{Request, discover, other, default_lease, reply}
use castr.Miracast.Dhcp.Options.{reply_lem}

abbrev packet : ℕ → Packet
packet n = record { sequence = n; timestamp = 0; payload_type = 33; payload = n ∷ [] }

-- Packet 7 is missing.
abbrev window : Reorder
window = record { window = 2; held = packet 8 ∷ packet 10 ∷ []; next = some 7; lost = 0 }

push_lem_example :
    let (r', out) = push window (packet 9) in
    ((IsPast (some 7) 9 ⊎ IsHeld 9 window.held) × (push window (packet 9) ≡ (window, [])))
    ⊎ ((¬ (IsPast (some 7) 9 ⊎ IsHeld 9 window.held))
        × (length r'.held ≤ 2)
        × (length out + length r'.held ≡ 2 + 1)
        × Placed (packet 9) window.held (out ++ r'.held)
        × Gives 2 (some 7) r'.next 0 r'.lost out r'.held)
push_lem_example = push_lem window (packet 9)

push_all-Consecutive_example :
    ((push_all (new 8) (packet 65535 ∷ packet 0 ∷ [])).1 ≡ packet 65535 ∷ packet 0 ∷ [])
    × ((push_all (new 8) (packet 65535 ∷ packet 0 ∷ [])).0.lost ≡ 0)
push_all-Consecutive_example =
    push_all-Consecutive 8 65535 (packet 65535 ∷ packet 0 ∷ []) (omega arith) (refl, (refl, tt))

parse_all-push_example :
    (ps : List Packet) × (parse_all
        (RtpPack.push (record { ssrc = 9; sequence = 65535 }) (71 ∷ 1 ∷ 2 ∷ []) 90000).1
      ≡ some ps)
    × ((push_all (new 8) ps).1 ≡ ps)
    × ((push_all (new 8) ps).0.lost ≡ 0)
    × (payloads ps ≡ 71 ∷ 1 ∷ 2 ∷ [])
parse_all-push_example =
    parse_all-push (record { ssrc = 9; sequence = 65535 }) (71 ∷ 1 ∷ 2 ∷ []) 90000 8 (omega arith)
      (omega arith)

abbrev blip : List Call
blip = event connected 1 ∷ event ended 2 ∷ at 3 ∷ event connected 4 ∷ []

perform-run_example :
    IsValid (run Lifecycle.new blip).0
    × (perform false (run Lifecycle.new blip).1 ≡ some (holds_display (run Lifecycle.new blip).0))
perform-run_example = perform-run blip

abbrev held_screen : Lifecycle
held_screen = record { phase = holding; holding_since = some 5 }

tick-hold_example :
    ((t : ℕ) × (held_screen.phase ≡ holding)
      × (held_screen.holding_since ≡ some t)
      × (hold ≤ 40000000 - t)
      × (tick held_screen 40000000 ≡ (Lifecycle.new, release_display ∷ [])))
    ⊎ ((tick held_screen 40000000 ≡ (held_screen, []))
        × ((held_screen.phase ≢ holding)
            ⊎ ((t : ℕ) × (held_screen.holding_since ≡ some t) × (40000000 - t < hold))))
tick-hold_example = tick-hold held_screen 40000000 refl

abbrev top : BitrateLadder
top = record { rung = 0; clean = 3; last_loss = 10; last_sample = none }

top-IsValid : Laws.IsValid top
top-IsValid = ground arith

sample-moves_example :
    let (l', out) = sample top 17 1000000 in
    (Early top 1000000 × (l' ≡ top) × (out ≡ none))
    ⊎ ((¬ Early top 1000000)
        × (l'.last_sample ≡ some 1000000)
        × (l'.last_loss ≡ 17)
        × Judged top 7 4 l' out)
sample-moves_example = sample-moves top 17 1000000 top-IsValid

abbrev a_request : Request
a_request = record {
  kind = discover;
  xid = 77;
  mac = 1 ∷ 2 ∷ 3 ∷ 4 ∷ 5 ∷ 6 ∷ [];
  requested_ip = none;
  client_id = some (1 ∷ 9 ∷ []);
}

reply_lem_example :
    (discover ≡ other × (reply a_request default_lease ≡ none))
    ⊎ (discover ≢ other
        × ((p : Bytes) × (reply a_request default_lease ≡ some p) × (300 ≤ length p)))
reply_lem_example = reply_lem a_request default_lease

All-small : (n : ℕ) → All (λ s. s < 65536) (replicate n 513)
All-small zero = tt
All-small (suc n) = (omega arith, All-small n)

-- A full frame of one sample over and over.
abbrev some_samples : List ℕ
some_samples = replicate 960 513

abbrev some_frame : Bytes
some_frame = 0xa0 ∷ 6 ∷ 0 ∷ 0x11 ∷ sample_bytes some_samples

some_framed : frame some_samples ≡ some some_frame
unfolding frame
some_framed = refl

samples_of-payload_example : samples_of (payload some_frame) ≡ some_samples
samples_of-payload_example = samples_of-payload some_samples some_frame (All-small 960) some_framed
