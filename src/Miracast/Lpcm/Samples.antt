-- ===== src/Miracast/Lpcm/Samples.antt =====
-- The samples of an audio frame come back.
use castr.Base.{ℕ, ◌+◌, ◌*◌, ◌%◌, ◌/◌, ◌<◌, ◌≡◌, refl, ap, ◌∙◌, arith, some, List, [], ◌∷◌, All}
use castr.Base.Bytes.{Bytes}
use castr.Miracast.Lpcm.{sample_bytes, samples_of, frame, payload}

samples_of-sample_bytes :
    (ss : List ℕ) → All (λ s. s < 65536) ss → samples_of (sample_bytes ss) ≡ ss
unfolding samples_of sample_bytes
samples_of-sample_bytes [] a = refl
samples_of-sample_bytes (s ∷ ss) a =
    let q = samples_of-sample_bytes ss a.1 in
    let e : 256 * (s / 256 % 256) + s % 256 ≡ s = omega (arith, a.0) in
    ap (λ (n : ℕ). n ∷ samples_of (sample_bytes ss)) e ∙ ap (λ (l : List ℕ). s ∷ l) q

frame_some : (ss : List ℕ) (f : Bytes) → frame ss ≡ some f → payload f ≡ sample_bytes ss
unfolding frame payload
frame_some ss f e = ground arith

-- What `payload` leaves of a frame that `frame` made of 16-bit samples is those samples, two bytes
-- each, the high one first: read so, they are the samples that went in.
pub samples_of-payload :
    (ss : List ℕ) (f : Bytes)
    → All (λ s. s < 65536) ss
    → frame ss ≡ some f
    → samples_of (payload f) ≡ ss
samples_of-payload ss f a e = ap samples_of (frame_some ss f e) ∙ samples_of-sample_bytes ss a
