-- ===== src/Accel/Init.antt =====
-- `rudp_create`, `rudp_init_client` and `rudp_init_server`. The socket, `inet_pton` and `rand()`
-- are outside: whether the socket could be made, the parsed addresses and the random bytes are
-- arguments.
pub mod Starts
use softether_android_client.Base.{
  ℕ, ◌+◌, Option, none, some, List, [], ◌∷◌, ltb, leb, ◌==◌, ◌&&◌, ◌||◌, not, if◌then◌else◌, length,
  take, Bool, true, false,
}
use softether_android_client.Accel.Context.{Context, Address, Ring}

-- The bytes that fill the keys and vectors of a new context.
pub record Randoms : Type 0 where
  pub my_key : List ℕ
  pub your_key : List ℕ
  pub my_key_v2 : List ℕ
  pub your_key_v2 : List ℕ
  pub next_iv : List ℕ
  pub next_iv_v2 : List ℕ

-- The `do … while` that draws a cookie; `none` where the draws that are given do not suffice. The
-- second result is the draws that are left.
unfoldable pub draw_cookie : (ℕ → Bool) → List ℕ → Option (ℕ × List ℕ)
draw_cookie refused [] = none
draw_cookie refused (r ∷ rs) =
    let again = draw_cookie refused rs in if refused r then again else some (r, rs)

abbrev pub empty_ring : Ring
empty_ring = record { slots = λ i. []; head = 0; tail = 0; count = 0 }

abbrev pub created : Randoms → ℕ → ℕ → ℕ → Context
created r my_cookie your_cookie now = record {
  inited = false;
  version = 1;
  my_key = r.my_key;
  your_key = r.your_key;
  my_key_v2 = r.my_key_v2;
  your_key_v2 = r.your_key_v2;
  next_iv = r.next_iv;
  next_iv_v2 = r.next_iv_v2;
  v2_cipher_inited = false;
  my_cookie = my_cookie;
  your_cookie = your_cookie;
  peer_addr = none;
  is_ipv6 = false;
  now = now;
  last_recv_tick = 0;
  last_recv_your_tick = 0;
  last_recv_my_tick = 0;
  next_send_keepalive = 0;
  first_stable_receive_tick = 0;
  mss = 1355;
  max_udp_packet_size = 1472;
  use_compress = false;
  recv_queue = empty_ring;
  fatal_error = false;
  recv_queue_overflow_count = 0;
  udp_rx_packets = 0;
  peer_tick_gap_events = 0;
  last_peer_tick_seen = 0;
  recent_overflows = 0;
  udp_data_suspended = false;
  udp_data_resume_tick = 0;
  suspension_count = 0;
  last_loss_event_tick = 0;
  cwin_bytes = 0;
  cwin_last_refill_tick = 0;
  cwin_inited = false;
  lock_depth = 0;
}

-- `rudp_create`; `none` is NULL.
unfoldable pub create : Bool → Randoms → List ℕ → ℕ → Option Context
create socket_made r draws now =
    if not socket_made then none else elim (draw_cookie (λ c. c == 0) draws) [
      | none ↦ none
      | some (mine, rest) ↦ elim (draw_cookie (λ c. (c == 0) || (c == mine)) rest) [
        | none ↦ none
        | some (yours, rest') ↦ some (created r mine yours now)
      ]
    ]

-- The address that `inet_pton` makes of the text: as version 6 first, then as version 4.
unfoldable pub parse_host : Option (List ℕ) → Option (List ℕ) → ℕ → Option Address
parse_host (some h) v4 port = some (record { is_ipv6 = true; host = h; port = port })
parse_host none (some h) port = some (record { is_ipv6 = false; host = h; port = port })
parse_host none none port = none

abbrev pub differ : Bool → Bool → Bool
differ true b = not b
differ false b = b

-- The socket is made again when the family changes; `none` is -1.
abbrev pub set_peer : Bool → Option Address → Context → Option Context
set_peer socket_made none c = none
set_peer socket_made (some a) c =
    if differ a.is_ipv6 c.is_ipv6 && not socket_made
    then none
    else some (record c {
      is_ipv6 = a.is_ipv6;
      peer_addr = some a;
      mss = if a.is_ipv6 then 1335 else 1355;
      max_udp_packet_size = if a.is_ipv6 then 1452 else 1472;
    })

-- The peer's key for the receiving direction, and the ciphers of version 2, which OpenSSL may fail
-- to make.
unfoldable pub take_key : Bool → List ℕ → Context → Context
take_key ciphers_made key c = record c {
  your_key = if leb 20 (length key) then take 20 key else c.your_key;
  your_key_v2 = if leb 128 (length key) then take 128 key else c.your_key_v2;
  v2_cipher_inited = if leb 128 (length key) then ciphers_made else c.v2_cipher_inited;
}

abbrev pub start_client : ℕ → ℕ → ℕ → Bool → List ℕ → Context → Option Context → Context × Bool
start_client server_cookie client_cookie now ciphers_made key c none = (c, false)
start_client server_cookie client_cookie now ciphers_made key c (some c') = (
  record (take_key ciphers_made key c') {
    your_cookie = server_cookie;
    my_cookie = client_cookie;
    inited = true;
    now = now;
  },
  true,
)

-- `rudp_init_client`; the result is whether 0 is returned.
unfoldable pub init_client :
    Bool → Bool → Option Address → List ℕ → ℕ → ℕ → ℕ → Context → Context × Bool
init_client socket_made ciphers_made host key server_cookie client_cookie now c =
    start_client server_cookie client_cookie now ciphers_made key c (set_peer socket_made host c)

abbrev pub start_server : ℕ → Bool → List ℕ → Context → Option Context → Context × Bool
start_server now ciphers_made key c none = (c, false)
start_server now ciphers_made key c (some c') =
    (record (take_key ciphers_made key c') { inited = true; now = now }, true)

-- `rudp_init_server`
unfoldable pub init_server : Bool → Bool → Option Address → List ℕ → ℕ → Context → Context × Bool
init_server socket_made ciphers_made host key now c =
    start_server now ciphers_made key c (set_peer socket_made host c)
