-- ===== src/Miracast/Dhcp.antt =====
-- crates/castr-miracast/src/dhcp.rs: a DHCP server with one address to give away. An address is its
-- four octets.
pub mod Options
use castr.Base.{
  ℕ, zero, suc, ◌-◌, ◌%◌, not, ◌&&◌, ◌||◌, Option, none, some, [], ◌∷◌, ◌++◌, ltb, ◌==◌,
  if◌then◌else◌, length, take, drop, get_or, replicate,
}
use castr.Base.Bytes.{Bytes, bytes_eq, u32_to_be, u32_from_be}

abbrev pub magic : Bytes
magic = 99 ∷ 130 ∷ 83 ∷ 99 ∷ []

abbrev pub opt_subnet : ℕ
opt_subnet = 1

abbrev pub opt_router : ℕ
opt_router = 3

abbrev pub opt_lease_time : ℕ
opt_lease_time = 51

abbrev pub opt_message_type : ℕ
opt_message_type = 53

abbrev pub opt_server_id : ℕ
opt_server_id = 54

abbrev pub opt_requested_ip : ℕ
opt_requested_ip = 50

abbrev pub opt_client_id : ℕ
opt_client_id = 61

abbrev pub opt_end : ℕ
opt_end = 255

abbrev pub min_message : ℕ
min_message = 300

abbrev pub off_options : ℕ
off_options = 240

pub data Kind : Type 0 where
  discover : Kind
  request : Kind
  other : Kind

pub record Request : Type 0 where
  pub kind : Kind
  pub xid : ℕ
  pub mac : Bytes
  pub requested_ip : Option Bytes
  pub client_id : Option Bytes

pub record Lease : Type 0 where
  pub server : Bytes
  pub client : Bytes
  pub netmask : Bytes
  pub lease_secs : ℕ

abbrev pub default_lease : Lease
default_lease = record {
  server = 192 ∷ 168 ∷ 173 ∷ 1 ∷ [];
  client = 192 ∷ 168 ∷ 173 ∷ 2 ∷ [];
  netmask = 255 ∷ 255 ∷ 255 ∷ 248 ∷ [];
  lease_secs = 3600;
}

unfoldable pub kind_of : ℕ → Kind
kind_of code = if code == 1 then discover else if code == 3 then request else other

-- The `match` on the option's code.
unfoldable pub take_option : ℕ → Bytes → Request → Request
take_option code value r =
    if code == opt_message_type && length value == 1
    then record r { kind = kind_of (get_or value 0 0) }
    else if code == opt_requested_ip && length value == 4
    then record r { requested_ip = some value }
    else if code == opt_client_id && ltb 0 (length value)
    then record r { client_id = some value }
    else r

-- How one turn of the loop ends: with the function's answer, or further on in the bytes.
pub data Turn : Type 0 where
  done : Option Request → Turn
  more : Bytes → Request → Turn

-- The loop's body, at a code and the byte behind it.
unfoldable pub turn : ℕ → ℕ → Bytes → Request → Turn
turn code len rest r =
    if code == opt_end
    then done (some r)
    else if code == 0
    then more (len ∷ rest) r
    else if ltb (length rest) len
    then done none
    else more (drop len rest) (take_option code (take len rest) r)

-- The loop, over the bytes from `i` on. Each turn leaves at least a byte behind, so that the number
-- of bytes is enough fuel.
unfoldable pub parse_options : ℕ → Bytes → Request → Option Request
parse_options zero rest r = some r
parse_options (suc fuel) [] r = some r
parse_options (suc fuel) (code ∷ []) r = some r
parse_options (suc fuel) (code ∷ len ∷ rest) r = elim (turn code len rest r) [
  | done answer ↦ answer
  | more rest' r' ↦ parse_options fuel rest' r'
]

unfoldable pub parse : Bytes → Option Request
parse buf =
    if ltb (length buf) off_options
      || not (get_or buf 0 0 == 1)
      || not (bytes_eq (take 4 (drop 236 buf)) magic)
    then none
    else parse_options (length (drop off_options buf)) (drop off_options buf) (record {
      kind = other;
      xid = u32_from_be (get_or buf 4 0) (get_or buf 5 0) (get_or buf 6 0) (get_or buf 7 0);
      mac = take 6 (drop 28 buf);
      requested_ip = none;
      client_id = none;
    })

-- The type of the answer: an offer is 2, an acknowledgement 5 and a refusal 6.
unfoldable pub message_type : Kind → Option Bytes → Lease → Option ℕ
message_type discover requested_ip lease = some 2
message_type request none lease = some 5
message_type request (some ip) lease = if bytes_eq ip lease.client then some 5 else some 6
message_type other requested_ip lease = none

-- What `push_option` puts behind the message.
unfoldable pub option_bytes : ℕ → Bytes → Bytes
option_bytes code value = code ∷ (length value % 256) ∷ value

-- The 240 bytes in front of the options.
unfoldable pub fixed_header : Request → Lease → ℕ → Bytes
fixed_header r lease kind =
    2
    ∷ 1
    ∷ 6
    ∷ 0
    ∷ (u32_to_be r.xid
        ++ (replicate 8 0
            ++ ((if kind == 6 then replicate 4 0 else lease.client)
                ++ (lease.server ++ (replicate 4 0 ++ (r.mac ++ (replicate 202 0 ++ magic)))))))

abbrev pub client_id_bytes : Option Bytes → Bytes
unfolding option_bytes
client_id_bytes none = []
client_id_bytes (some id) = option_bytes opt_client_id id

-- The options that only a lease that is given has.
unfoldable pub lease_bytes : Lease → ℕ → Bytes
lease_bytes lease kind =
    if kind == 6
    then []
    else option_bytes opt_subnet lease.netmask
      ++ (option_bytes opt_router lease.server
          ++ option_bytes opt_lease_time (u32_to_be lease.lease_secs))

unfoldable pub pad : Bytes → Bytes
pad p = p ++ replicate (min_message - length p) 0

-- The message, before it is filled up.
unfoldable pub message : Request → Lease → ℕ → Bytes
message r lease kind =
    fixed_header r lease kind
    ++ (option_bytes opt_message_type (kind ∷ [])
        ++ (option_bytes opt_server_id lease.server
            ++ (client_id_bytes r.client_id ++ (lease_bytes lease kind ++ (opt_end ∷ [])))))

unfoldable pub reply : Request → Lease → Option Bytes
reply r lease = elim (message_type r.kind r.requested_ip lease) [
  | none ↦ none
  | some kind ↦ some (pad (message r lease kind))
]
