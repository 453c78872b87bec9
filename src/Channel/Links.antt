-- ===== src/Channel/Links.antt =====
-- How the TCP sockets of a connection come and go: the ends of `softether_additional_connect`,
-- `softether_close_additional`, `softether_additional_thread_wait` and `softether_disconnect` of
-- softether_protocol.c. What the TLS and HTTP exchange of a new socket comes to is an argument, and
-- its direction one of the three that the protocol has. The closing of descriptors, the freeing of TLS
-- contexts and the fields of a connection that the data channel does not use are left out.
use softether_android_client.Base.{
  ℕ, ◌+◌, Option, none, some, List, [], ◌∷◌, ◌&&◌, if◌then◌else◌, set, Bool, true, false,
}
use softether_android_client.Channel.Connection.{
  Connection, disconnected, TcpSock, Direction, is_connected, is_down,
}
use softether_android_client.Channel.Calls.{free_slot}

-- A socket that the server has accepted, and the clock.
pub record Accepted : Type 0 where
  pub fd : ℕ
  pub direction : Direction
  pub tick : ℕ

abbrev pub socket_of : Accepted → TcpSock
socket_of a = record {
  socket_fd = some (a.fd);
  ssl_ctx = true;
  ssl = true;
  direction = a.direction;
  last_recv = a.tick;
  active = true;
}

-- The step that puts it in its place.
unfoldable pub add_socket : ℕ → Accepted → Connection → Connection
add_socket k a c = record c {
  additional = set c.additional k (socket_of a);
  num_additional = c.num_additional + 1;
  additional_failed_count = 0;
}

-- After the choice of a slot.
abbrev pub settle : Option Accepted → Connection → Option ℕ → Connection
settle a c none = c
settle none c (some k) = record c { additional_failed_count = c.additional_failed_count + 1 }
settle (some a) c (some k) = add_socket k a c

-- `softether_additional_connect`, with the exchange as `none` when a step of it fails.
unfoldable pub additional_connect : Option Accepted → Connection → Connection
additional_connect a c = if is_connected c.state then settle a c (free_slot 0 c.additional) else c

-- The end of the thread that connects.
unfoldable pub additional_connect_thread : Option Accepted → Connection → Connection
additional_connect_thread a c = record (additional_connect a c) { additional_connecting = false }

-- A slot after `softether_close_additional`.
abbrev pub closed : TcpSock → TcpSock
closed t =
    if t.active
    then record t { active = false; ssl = false; ssl_ctx = false; socket_fd = none; last_recv = 0 }
    else record t { ssl_ctx = false }

abbrev pub closed_all : List TcpSock → List TcpSock
closed_all [] = []
closed_all (t ∷ ts) = closed t ∷ closed_all ts

-- `softether_close_additional`: what a thread that it waits for has added is closed with the rest.
unfoldable pub close_additional : Connection → Connection
close_additional c = record c {
  additional = closed_all c.additional;
  num_additional = 0;
  additional_failed_count = 0;
  additional_connecting = false;
}

-- `softether_disconnect`, with whether the primary socket's `ssl_ctx` is not NULL.
unfoldable pub disconnect : Bool → Connection → Connection
disconnect ssl_ctx c = if is_down c.state then c else record (close_additional c) {
  socket_fd = none;
  ssl = if c.ssl && ssl_ctx then false else c.ssl;
  rudp = none;
  rudp_enabled = false;
  state = disconnected;
}
