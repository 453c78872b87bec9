-- ===== src/Accel/Context.antt =====
-- `rudp_context_t` of softether_rudp.h, its receive queue, and the functions that set or read a
-- field. A context that is NULL does not occur.
pub mod Queue
use softether_android_client.Base.{
  ℕ, zero, suc, ◌+◌, ◌-◌, ◌%◌, ◌^◌, Option, none, some, List, [], ◌∷◌, ltb, leb, ◌==◌, ◌&&◌, not,
  if◌then◌else◌, length, Bool, true, false,
}

abbrev pub recv_queue_size : ℕ
recv_queue_size = 256

-- RUDP_MAX_PAYLOAD_SIZE, the size of `data` in an entry.
abbrev pub max_payload_size : ℕ
max_payload_size = 1600

-- `recv_queue` with its head, tail and count. An entry is the list of its `len` bytes.
pub record Ring : Type 0 where
  pub slots : ℕ → List ℕ
  pub head : ℕ
  pub tail : ℕ
  pub count : ℕ

abbrev pub update : (ℕ → List ℕ) → ℕ → List ℕ → ℕ → List ℕ
update slots i bs j = if j == i then bs else slots j

-- An address as `sockaddr_storage` holds it.
pub record Address : Type 0 where
  pub is_ipv6 : Bool
  pub host : List ℕ
  pub port : ℕ

pub record Context : Type 0 where
  pub inited : Bool
  pub version : ℕ
  pub my_key : List ℕ
  pub your_key : List ℕ
  pub my_key_v2 : List ℕ
  pub your_key_v2 : List ℕ
  pub next_iv : List ℕ
  pub next_iv_v2 : List ℕ
  pub v2_cipher_inited : Bool
  pub my_cookie : ℕ
  pub your_cookie : ℕ
  pub peer_addr : Option Address
  pub is_ipv6 : Bool
  pub now : ℕ
  pub last_recv_tick : ℕ
  pub last_recv_your_tick : ℕ
  pub last_recv_my_tick : ℕ
  pub next_send_keepalive : ℕ
  pub first_stable_receive_tick : ℕ
  pub mss : ℕ
  pub max_udp_packet_size : ℕ
  pub use_compress : Bool
  pub recv_queue : Ring
  pub fatal_error : Bool
  pub recv_queue_overflow_count : ℕ
  pub udp_rx_packets : ℕ
  pub peer_tick_gap_events : ℕ
  pub last_peer_tick_seen : ℕ
  pub recent_overflows : ℕ
  pub udp_data_suspended : Bool
  pub udp_data_resume_tick : ℕ
  pub suspension_count : ℕ
  pub last_loss_event_tick : ℕ
  pub cwin_bytes : ℕ
  pub cwin_last_refill_tick : ℕ
  pub cwin_inited : Bool
  -- How often the recursive mutex is held when no call is running.
  pub lock_depth : ℕ

abbrev pub is_set : Option Address → Bool
is_set none = false
is_set (some a) = true

-- The top bit of `mss` is the flag of the fast detection.
abbrev pub is_fast : ℕ → Bool
is_fast mss = leb (2 ^ 31) mss

-- `rudp_set_fast_detect`
unfoldable pub set_fast_detect : Bool → Context → Context
set_fast_detect fast c = record c {
  mss = if fast then (if is_fast c.mss then c.mss else c.mss + 2 ^ 31) else c.mss % 2 ^ 31;
}

-- `rudp_set_version`
unfoldable pub set_version : ℕ → Context → Context
set_version version c = record c { version = if leb 2 version && c.v2_cipher_inited then 2 else 1 }

-- `rudp_set_compress`
unfoldable pub set_compress : Bool → Context → Context
set_compress enable c = record c { use_compress = enable }

-- `rudp_set_tick`
unfoldable pub set_tick : ℕ → Context → Context
set_tick tick c = record c { now = tick }

-- `rudp_is_active`
unfoldable pub is_active : Context → Bool
is_active c =
    c.inited && is_set c.peer_addr && not c.fatal_error && not (c.first_stable_receive_tick == 0)

-- `rudp_calc_mss`
unfoldable pub calc_mss : Context → ℕ
calc_mss c =
    if c.is_ipv6
    then (if leb 2 c.version then 1343 else 1335)
    else (if leb 2 c.version then 1363 else 1355)

-- The queue part of `rudp_process_inner`.
unfoldable pub enqueue : List ℕ → Ring → Ring
enqueue bs q = record q {
  slots = update q.slots q.tail bs;
  tail = (q.tail + 1) % recv_queue_size;
  count = q.count + 1;
}

-- `rudp_recv`, with the bytes that it copies out; the first result is 0, the second -1. An entry
-- that is longer than the caller's buffer is reported with the mutex still locked.
pub data Received : Type 0 where
  empty : Received
  failed : Received
  block : List ℕ → Received

unfoldable pub recv : ℕ → Context → Context × Received
recv max_len c =
    let q = c.recv_queue in
    let entry = q.slots q.head in
    if q.count == 0
    then (c, empty)
    else if ltb max_len (length entry)
    then (record c { lock_depth = c.lock_depth + 1 }, failed)
    else (
      record c {
        recv_queue = record q { head = (q.head + 1) % recv_queue_size; count = q.count - 1 };
      },
      block entry,
    )
