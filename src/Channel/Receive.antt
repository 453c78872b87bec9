-- ===== src/Channel/Receive.antt =====
-- The receiving half of packet_handler.c: `drain_rudp_into_recv_queue` and
-- `softether_fill_recv_queue_locked`. During one call only the poll lets the state change, when
-- another thread disconnects; sockets are retired by the call itself alone. Descriptors of open
-- sockets differ, so a socket is found by its index.
pub mod Counts
use softether_android_client.Base.{
  ℕ, zero, suc, ◌+◌, ◌-◌, Option, none, some, List, [], ◌∷◌, ◌++◌, ltb, leb, ◌==◌, ◌&&◌, ◌||◌, not,
  if◌then◌else◌, length, set, Bool, true, false,
}
use softether_android_client.Accel.Context.{Context, Received, empty, failed, block, recv}
use softether_android_client.Accel.Poll.{Datagram, Chance, poll}
use softether_android_client.Channel.Stream.{Arrival, Wire, tls, raw_fd, read_all, Write}
use softether_android_client.Channel.Inbox.{
  Inbox, Ending, done, no_blocks, keepalive, unreadable, too_large, read_message, push, queue_size,
  max_queued_frame,
}
use softether_android_client.Channel.Connection.{
  Connection, TcpSock, State, is_connected, is_disconnecting, is_down, can_receive, is_open, slot,
  retire,
}
use softether_android_client.Channel.Send.{Sent, send_keepalive}

-- The functions of OpenSSL and zlib that the calls of the UDP acceleration come to.
pub record Library : Type 0 where
  pub sha1 : List ℕ → List ℕ
  pub aead : List ℕ → List ℕ → List ℕ → List ℕ × List ℕ
  pub aead_open : List ℕ → List ℕ → List ℕ → List ℕ → Option (List ℕ)
  pub compress : List ℕ → Option (List ℕ)
  pub uncompress : List ℕ → Option (List ℕ)

-- What a call of `rudp_poll` meets.
pub record Round : Type 0 where
  pub now : ℕ
  pub chance : Chance
  pub datagrams : List Datagram

abbrev pub rudp_poll : Library → Round → Context → Context
rudp_poll l r x =
    (poll l.sha1 l.aead l.aead_open l.compress l.uncompress r.now r.chance r.datagrams x).0

abbrev one_more : (Context × Inbox) × ℕ → (Context × Inbox) × ℕ
one_more (r, n) = (r, n + 1)

-- What follows a call of `rudp_recv`: an empty frame ends the loop as no frame does.
unfoldable pub on_received :
    Received → Context → Inbox → (List ℕ → (Context × Inbox) × ℕ) → (Context × Inbox) × ℕ
on_received empty x i k = ((x, i), 0)
on_received failed x i k = ((x, i), 0)
on_received (block []) x i k = ((x, i), 0)
on_received (block (b ∷ bs)) x i k = one_more (k (b ∷ bs))

-- The frames that one call moves, and how many.
unfoldable pub drain_loop : ℕ → Context → Inbox → (Context × Inbox) × ℕ
drain_loop zero x i = ((x, i), 0)
drain_loop (suc n) x i =
    let (x', r) = recv max_queued_frame x in
    let rest = on_received r x' i (λ bs. drain_loop n x' (push bs i)) in
    if ltb i.queue.count queue_size then rest else ((x, i), 0)

abbrev with_rudp : Connection → (Context × Inbox) × ℕ → Connection × ℕ
with_rudp c ((x, i), n) = (record c { rudp = some x; inbox = i }, n)

abbrev pub drain_of : Library → Round → Connection → Option Context → Connection × ℕ
drain_of l r c none = (c, 0)
drain_of l r c (some x) = with_rudp c (drain_loop 64 (rudp_poll l r x) c.inbox)

-- `drain_rudp_into_recv_queue` with RECV_QUEUE_SIZE frames at most.
unfoldable pub drain_rudp : Library → Round → Connection → Connection × ℕ
drain_rudp l r c = if c.rudp_enabled then drain_of l r c c.rudp else (c, 0)

-- The indices of the TCP sockets that are polled, in order.
abbrev pub watched_additional : ℕ → List TcpSock → List ℕ
watched_additional k [] = []
watched_additional k (t ∷ ts) =
    let rest = watched_additional (k + 1) ts in
    if t.active && is_open t.socket_fd && (can_receive t.direction && t.ssl)
    then (k + 1) ∷ rest
    else rest

unfoldable pub watched : Connection → List ℕ
watched c =
    (if is_open c.socket_fd && can_receive c.primary_direction then 0 ∷ [] else [])
    ++ watched_additional 0 c.additional

-- What `poll` reports of a descriptor: POLLIN, POLLERR or POLLHUP, and POLLNVAL.
pub record Events : Type 0 where
  pub readable : Bool
  pub error : Bool
  pub invalid : Bool

pub data Polled : Type 0 where
  timeout : Polled
  poll_error : Polled
  ready : (ℕ → Events) → Polled

-- What a call meets: the two polls of the UDP acceleration, whether it has a descriptor and what
-- `poll` says of it, `ssl_has_pending` and `poll` for the TCP sockets, the state after that, the
-- clock, the bytes that come in on a socket, and what answering a keepalive takes.
pub record Meets : Type 0 where
  pub first : Round
  pub second : Round
  pub udp_fd : Bool
  pub udp : Events
  pub pending : ℕ → Bool
  pub polled : Polled
  pub state_after : State
  pub tick : ℕ
  pub incoming : ℕ → List Arrival
  pub size : ℕ
  pub rand : ℕ → ℕ
  pub writes : List Write

-- 1, 0 and -1
pub data Filled : Type 0 where
  data_queued : Filled
  no_data : Filled
  error : Filled

abbrev pub find : (ℕ → Bool) → List ℕ → Option ℕ
find f [] = none
find f (i ∷ is) = let rest = find f is in if f i then some i else rest

-- Whether the report on a descriptor ends the call: an invalid one does, and an error on anything
-- but an additional socket.
unfoldable pub is_fatal : Bool → Events → Bool
is_fatal is_additional e = e.invalid || (e.error && not e.readable && not is_additional)

abbrev pub any_fatal : (ℕ → Events) → List ℕ → Bool
any_fatal f [] = false
any_fatal f (i ∷ is) = is_fatal (ltb 0 i) (f i) || any_fatal f is

-- CLOSE_FAILED_ADDITIONAL_SOCKET
unfoldable pub close_failed : ℕ → Connection → Connection × Filled
close_failed zero c = (c, error)
close_failed (suc k) c = (retire k c, no_data)

abbrev pub mark_received : ℕ → ℕ → Connection → Connection
mark_received zero tick c = c
mark_received (suc k) tick c = record c {
  additional = set c.additional k (record (slot k c) { last_recv = tick });
}

module _ (z : ℕ → List ℕ → Option (List ℕ)) (l : Library) (m : Meets) where
  -- What becomes of a message that was read from a socket.
  unfoldable pub settle : ℕ → Ending → Connection → (Connection × Sent) × Filled
  settle i done c = ((c, []), if c.inbox.queue.count == 0 then no_data else data_queued)
  settle i no_blocks c = ((c, []), no_data)
  settle i keepalive c = ((c, (send_keepalive m.size m.rand m.writes c).0), no_data)
  settle i unreadable c = let (c', r) = close_failed i c in ((c', []), r)
  settle i too_large c = ((c, []), error)

  abbrev pub zlib : Connection → Option (ℕ → List ℕ → Option (List ℕ))
  zlib c = if c.server_use_compress then some z else none

  abbrev pub read_on : ℕ → Connection → (Ending × Inbox) × List Arrival
  read_on i c =
      read_message (read_all (if c.use_ssl_data then tls else raw_fd)) (zlib c) c.inbox
        (m.incoming i)

  -- One message from the socket that was chosen.
  unfoldable pub read_from : ℕ → Connection → (Connection × Sent) × Filled
  read_from i c =
      let ((e, inbox), s) = read_on i c in
      settle i e (record (mark_received i m.tick c) { inbox = inbox })

  abbrev pub read_found : Option ℕ → Connection → (Connection × Sent) × Filled
  read_found none c = ((c, []), no_data)
  read_found (some i) c = read_from i c

  abbrev pub has_udp : Connection → Bool
  has_udp c = c.rudp_enabled && has_context c.rudp && m.udp_fd
    where
      has_context : Option Context → Bool
      has_context none = false
      has_context (some x) = true

  -- What follows a poll that reports something.
  unfoldable pub on_ready : (ℕ → Events) → Connection → (Connection × Sent) × Filled
  on_ready f c =
      let (c', moved) = drain_rudp l m.second c in
      let readable = find (λ i. (f i).readable) (watched c) in
      if (has_udp c && is_fatal false m.udp) || any_fatal f (watched c)
      then ((c, []), error)
      else if has_udp c && m.udp.readable
      then (if ltb 0 moved then ((c', []), data_queued) else read_found readable c')
      else read_found readable c

  unfoldable pub on_poll : Polled → Connection → (Connection × Sent) × Filled
  on_poll timeout c = ((c, []), no_data)
  on_poll poll_error c = ((c, []), error)
  on_poll (ready f) c = if is_disconnecting c.state then ((c, []), error) else on_ready f c

  abbrev pub poll_unless : Option ℕ → Connection → (Connection × Sent) × Filled
  poll_unless (some i) c = read_from i c
  poll_unless none c = on_poll m.polled (record c { state = m.state_after })

  abbrev pub is_empty : List ℕ → Bool
  is_empty [] = true
  is_empty (i ∷ is) = false

  -- `softether_fill_recv_queue_locked`
  unfoldable pub fill_recv_queue : Connection → (Connection × Sent) × Filled
  fill_recv_queue c =
      let (c', moved) = drain_rudp l m.first c in
      if not c.ssl || is_down c.state
      then ((c, []), error)
      else if ltb 0 moved
      then ((c', []), data_queued)
      else if not (has_udp c') && is_empty (watched c')
      then ((c', []), error)
      else poll_unless (find (λ i. c'.use_ssl_data && m.pending i) (watched c')) c'
