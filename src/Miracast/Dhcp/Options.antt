-- ===== src/Miracast/Dhcp/Options.antt =====
-- The loop over the options ends, and an option that is written reads back.
use castr.Base.{
  ℕ, zero, suc, ◌-◌, ◌%◌, ◌≤◌, ◌<◌, ◌≡◌, ◌≢◌, refl, arith, Option, none, some, [], ◌∷◌, ◌++◌,
  length, length-append, length-drop, drop-length_append, take-length_append, length-replicate,
  replicate, ◌⊎◌, inl, inr, Bool-cases,
}
use castr.Base.Bytes.{Bytes, bytes_eq}
use castr.Miracast.Dhcp.{
  Kind, discover, request, other, Request, Lease, Turn, done, more, turn, take_option, option_bytes,
  parse_options, reply, pad, message, message_type,
}

pub record Shorter (n : ℕ) (t : Turn) : Type 0 where
  pub law : (rest : Bytes) (r : Request) → t ≡ more rest r → length rest < n

turn-Shorter :
    (code len : ℕ) (rest : Bytes) (r : Request) (rest' : Bytes) (r' : Request)
    → turn code len rest r ≡ more rest' r'
    → length rest' < suc (suc (length rest))
unfolding turn
turn-Shorter code len rest r rest' r' = ground (arith, length-drop len rest)

parse_options_enough :
    (n m : ℕ) (buf : Bytes) (r : Request)
    → length buf ≤ n
    → length buf ≤ m
    → parse_options n buf r ≡ parse_options m buf r
unfolding parse_options
parse_options_enough zero zero buf r h k = refl
parse_options_enough zero (suc m) [] r h k = refl
parse_options_enough zero (suc m) (c ∷ buf) r h k = absurd (omega arith)
parse_options_enough (suc n) zero [] r h k = refl
parse_options_enough (suc n) zero (c ∷ buf) r h k = absurd (omega arith)
parse_options_enough (suc n) (suc m) [] r h k = refl
parse_options_enough (suc n) (suc m) (code ∷ []) r h k = refl
parse_options_enough (suc n) (suc m) (code ∷ len ∷ rest) r h k =
    go (turn code len rest r) (turn-Shorter code len rest r)
      (λ rest' r' a b. parse_options_enough n m rest' r' a b)
  where
    go :
        (t : Turn)
        → ((rest' : Bytes) (r' : Request)
            → t ≡ more rest' r'
            → length rest' < suc (suc (length rest)))
        → ((rest' : Bytes) (r' : Request)
            → length rest' ≤ n
            → length rest' ≤ m
            → parse_options n rest' r' ≡ parse_options m rest' r')
        → (elim t [ done answer ↦ answer | more rest' r' ↦ parse_options n rest' r' ])
          ≡ (elim t [ done answer ↦ answer | more rest' r' ↦ parse_options m rest' r' ])
    go (done answer) s ih = refl
    go (more rest' r') s ih = let l = s rest' r' refl in ih rest' r' (omega arith) (omega arith)

-- The number of bytes is enough fuel for the loop over the options: more changes nothing.
pub parse_options-length :
    (fuel : ℕ) (buf : Bytes) (r : Request)
    → length buf ≤ fuel
    → parse_options fuel buf r ≡ parse_options (length buf) buf r
parse_options-length fuel buf r h = parse_options_enough fuel (length buf) buf r h (omega arith)

-- An option as `push_option` writes it, of less than 256 bytes and with a code that is neither the
-- padding nor the end, is read as that code with that value, and the loop goes on behind it.
pub parse_options-option_bytes :
    (fuel code : ℕ) (value rest : Bytes) (r : Request)
    → code ≢ 0
    → code ≢ 255
    → length value < 256
    → parse_options (suc fuel) (option_bytes code value ++ rest) r
      ≡ parse_options fuel rest (take_option code value r)
unfolding parse_options option_bytes turn
parse_options-option_bytes fuel code value rest r z e h =
    let q : length value % 256 ≡ length value = omega arith in
    rw q (
      ground (
        arith,
        length-append value rest,
        drop-length_append value rest,
        take-length_append value rest,
      ))

pad-length : (p : Bytes) → 300 ≤ length (pad p)
unfolding pad
pad-length p = omega (
  arith,
  length-append p (replicate {A = ℕ} (300 - length p) 0),
  length-replicate {A = ℕ} (300 - length p) 0,
)

message_type-cases :
    (k : Kind) (ip : Option Bytes) (lease : Lease)
    → (k ≡ other × (message_type k ip lease ≡ none))
      ⊎ (k ≢ other × ((n : ℕ) × (message_type k ip lease ≡ some n)))
unfolding message_type
message_type-cases discover ip lease = inr (cc, (2, refl))
message_type-cases request none lease = inr (cc, (5, refl))
message_type-cases request (some ip) lease = elim (Bool-cases (bytes_eq ip lease.client)) [
  | inl e ↦ inr (cc, (5, rw e refl))
  | inr e ↦ inr (cc, (6, rw e refl))
]
message_type-cases other ip lease = inl (refl, refl)

-- Every reply has the 300 bytes that some clients ask for, and one is made for a discovery or a
-- request and for no other message.
pub reply_lem :
    (r : Request) (lease : Lease)
    → (r.kind ≡ other × (reply r lease ≡ none))
      ⊎ (r.kind ≢ other × ((p : Bytes) × (reply r lease ≡ some p) × (300 ≤ length p)))
unfolding reply
reply_lem r lease = elim (message_type-cases r.kind r.requested_ip lease) [
  | inl (e, q) ↦ inl (e, rw (reply, q) refl)
  | inr (e, (n, q)) ↦
      inr (e, (pad (message r lease n), rw (reply, q) refl, pad-length (message r lease n)))
]
