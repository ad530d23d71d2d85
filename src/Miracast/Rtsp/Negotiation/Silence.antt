-- ===== src/Miracast/Rtsp/Negotiation/Silence.antt =====
-- When the sink gives up on a source from which nothing is heard.
use castr.Base.{
  ℕ, ◌+◌, ◌-◌, ◌≡◌, refl, arith, true, false, some, List, [], ◌∷◌, ◌++◌, ltb, if◌then◌else◌, any,
  Bool-cases, inl, inr, ◌∙◌,
}
use castr.Miracast.Rtsp.Negotiation.{
  is_done, Action, send, play, bitrate, keyframe, teardown, Negotiation, keepalive_timeout,
}
use castr.Miracast.Rtsp.Negotiation.Clock.{tick}

-- Ticks at the times of a list.
unfoldable pub tick_all : Negotiation → List ℕ → Negotiation × List Action
tick_all n [] = (n, [])
tick_all n (now ∷ times) =
    let (n1, out) = tick n now in let (n2, more) = tick_all n1 times in (n2, out ++ more)

-- The number of times that the session is torn down.
abbrev pub teardowns : List Action → ℕ
teardowns [] = 0
teardowns (teardown why ∷ out) = 1 + teardowns out
teardowns (_ ∷ out) = teardowns out

teardowns-append : (a b : List Action) → teardowns (a ++ b) ≡ teardowns a + teardowns b
teardowns-append [] b = omega arith
teardowns-append (teardown why ∷ a) b = omega (arith, teardowns-append a b)
teardowns-append (send m ∷ a) b = teardowns-append a b
teardowns-append (play ∷ a) b = teardowns-append a b
teardowns-append (bitrate k ∷ a) b = teardowns-append a b
teardowns-append (keyframe ∷ a) b = teardowns-append a b

tick-done : (n : Negotiation) (now : ℕ) → is_done n.state ≡ true → tick n now ≡ (n, [])
unfolding tick
tick-done n now e = rw (e) refl

tick_all-done :
    (n : Negotiation) (times : List ℕ) → is_done n.state ≡ true → tick_all n times ≡ (n, [])
unfolding tick_all
tick_all-done n [] e = refl
tick_all-done n (now ∷ times) e = rw (tick-done n now e, tick_all-done n times e) refl

-- What one tick does to a session that is open, by the silence at its time.
tick_open :
    (n : Negotiation) (now heard : ℕ)
    → n.last_heard ≡ some heard
    → is_done n.state ≡ false
    → let (n', out) = tick n now in
      (n'.last_heard ≡ some heard)
      × (is_done n'.state ≡ ltb keepalive_timeout (now - heard))
      × (teardowns out ≡ (if ltb keepalive_timeout (now - heard) then 1 else 0))
unfolding tick
tick_open n now heard h e = ground arith

-- While no message comes, ticks at any times tear an open session down exactly once if one of them
-- comes more than ten seconds after the last message, and never otherwise; the session is done
-- then.
pub tick_all-teardowns :
    (n : Negotiation) (times : List ℕ) (heard : ℕ)
    → n.last_heard ≡ some heard
    → is_done n.state ≡ false
    → let (n', out) = tick_all n times in
      let silent = any (λ (now : ℕ). ltb keepalive_timeout (now - heard)) times in
      (teardowns out ≡ (if silent then 1 else 0)) × (is_done n'.state ≡ silent)
unfolding tick_all
tick_all-teardowns n [] heard h e = (refl, e)
tick_all-teardowns n (now ∷ times) heard h e =
    let (n1, out) = tick n now in
    let (h1, d1, c1) = tick_open n now heard h e in
    rw (teardowns-append out (tick_all n1 times).1, c1)
      (elim (Bool-cases (ltb keepalive_timeout (now - heard))) [
        | inl late ↦ rw (late, tick_all-done n1 times (d1 ∙ late)) (refl, d1 ∙ late)
        | inr early ↦
            let ih = tick_all-teardowns n1 times heard h1 (d1 ∙ early) in
            rw (early) (omega (arith, ih.0), ih.1)
      ])
