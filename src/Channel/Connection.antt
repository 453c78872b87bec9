-- ===== src/Channel/Connection.antt =====
-- The fields of `softether_connection_t` of include/softether_protocol.h that the data channel uses,
-- and the functions of softether_protocol.c that only read them. A connection that is NULL does not
-- occur. A pointer to a TLS context is whether it is not NULL, and a descriptor that is negative is
-- `none`.
use softether_android_client.Base.{
  ℕ, zero, suc, ◌+◌, ◌-◌, ◌≡◌, refl, arith, Option, none, some, List, [], ◌∷◌, ◌++◌, if◌then◌else◌,
  get_or, set, take, Bool, true, false,
}
use softether_android_client.Accel.Context.{Context}
use softether_android_client.Channel.Inbox.{Inbox}

pub data State : Type 0 where
  disconnected : State
  connecting : State
  tls_handshake : State
  protocol_handshake : State
  authenticating : State
  session_setup : State
  connected : State
  disconnecting : State

abbrev pub is_connected : State → Bool
is_connected connected = true
is_connected s = false

abbrev pub is_disconnecting : State → Bool
is_disconnecting disconnecting = true
is_disconnecting s = false

-- The test `state == STATE_DISCONNECTED || state == STATE_DISCONNECTING`.
abbrev pub is_down : State → Bool
is_down disconnected = true
is_down disconnecting = true
is_down s = false

-- TCP_DIRECTION_BOTH, TCP_DIRECTION_SERVER_TO_CLIENT and TCP_DIRECTION_CLIENT_TO_SERVER
pub data Direction : Type 0 where
  both : Direction
  server_to_client : Direction
  client_to_server : Direction

abbrev pub can_send : Direction → Bool
can_send server_to_client = false
can_send d = true

abbrev pub can_receive : Direction → Bool
can_receive client_to_server = false
can_receive d = true

-- `softether_tcp_sock_t`
pub record TcpSock : Type 0 where
  pub socket_fd : Option ℕ
  pub ssl_ctx : Bool
  pub ssl : Bool
  pub direction : Direction
  pub last_recv : ℕ
  pub active : Bool

abbrev pub is_open : Option ℕ → Bool
is_open none = false
is_open (some fd) = true

pub record Connection : Type 0 where
  pub socket_fd : Option ℕ
  pub ssl : Bool
  pub state : State
  pub server_use_compress : Bool
  pub server_timeout : ℕ
  pub use_ssl_data : Bool
  pub session_established : Bool
  pub client_mac : List ℕ
  pub gateway_mac : List ℕ
  pub gateway_mac_resolved : Bool
  pub gateway_ip : ℕ
  pub assigned_ip : ℕ
  pub inbox : Inbox
  pub rudp : Option Context
  pub rudp_enabled : Bool
  pub additional : List TcpSock
  pub num_additional : ℕ
  pub primary_direction : Direction
  pub max_connection : ℕ
  pub next_connect_time : ℕ
  pub additional_failed_count : ℕ
  pub additional_connecting : Bool
  -- `none` for -1.
  pub additional_connect_slot : Option ℕ
  pub send_rr_idx : ℕ
  pub next_tcp_keepalive_time : ℕ
  -- The size of the staging buffer, and `none` for a buffer that is NULL.
  pub send_block_cap : Option ℕ
  pub stats_tx_packets : ℕ
  pub stats_tx_bytes : ℕ
  pub stats_rx_packets : ℕ
  pub stats_rx_bytes : ℕ

abbrev pub unused : TcpSock
unused = record {
  socket_fd = none;
  ssl_ctx = false;
  ssl = false;
  direction = both;
  last_recv = 0;
  active = false;
}

-- `conn->additional[k]`
abbrev pub slot : ℕ → Connection → TcpSock
slot k c = get_or c.additional k unused

abbrev pub shut : TcpSock → TcpSock
shut t = record t { active = false; ssl = false; ssl_ctx = false; socket_fd = none }

-- What `softether_transmit_block_nolock` and `softether_fill_recv_queue_locked` do with an additional
-- socket that fails. A slot that is not active is not retired, so `num_additional` is not 0 here.
unfoldable pub retire : ℕ → Connection → Connection
retire k c = record c {
  additional = set c.additional k (shut (slot k c));
  num_additional = c.num_additional - 1;
}

-- `softether_get_num_connections`
unfoldable pub get_num_connections : Connection → ℕ
get_num_connections c = (if is_open c.socket_fd then 1 else 0) + c.num_additional

abbrev descriptor : Option ℕ → List ℕ
descriptor none = []
descriptor (some fd) = fd ∷ []

abbrev active_fds : List TcpSock → List ℕ
active_fds [] = []
active_fds (t ∷ ts) = (if t.active then descriptor t.socket_fd else []) ++ active_fds ts

-- `softether_get_active_socket_fds` with room for `max_fds`: what it stores.
unfoldable pub get_active_socket_fds : ℕ → Connection → List ℕ
get_active_socket_fds max_fds c = take max_fds (descriptor c.socket_fd ++ active_fds c.additional)

-- The number of slots in use, which `num_additional` counts.
abbrev pub active_count : List TcpSock → ℕ
active_count [] = 0
active_count (t ∷ ts) = (if t.active then 1 else 0) + active_count ts

abbrev pub IsCounted : Connection → Type 0
IsCounted c = c.num_additional ≡ active_count c.additional

pub active_count-set :
    (ts : List TcpSock) (k : ℕ) (t : TcpSock)
    → (get_or ts k unused).active ≡ true
    → t.active ≡ false
    → active_count ts ≡ suc (active_count (set ts k t))
active_count-set [] k t h g = absurd (cc h)
active_count-set (x ∷ ts) zero t h g = rw (h, g) (omega arith)
active_count-set (x ∷ ts) (suc k) t h g = omega (arith, active_count-set ts k t h g)

pub retire-IsCounted :
    (k : ℕ) (c : Connection) → (slot k c).active ≡ true → IsCounted c → IsCounted (retire k c)
unfolding retire
retire-IsCounted k c h e =
    omega (arith, e, active_count-set c.additional k (shut (slot k c)) h refl)
