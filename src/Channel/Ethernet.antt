-- ===== src/Channel/Ethernet.antt =====
-- The Ethernet layer over the data channel in softether_protocol.c: sending packets, answering ARP,
-- taking packets from the receive queue, and the upkeep of the links.
pub mod Inboxes
pub mod Batch
pub mod Arp
pub mod Tunnel
use softether_android_client.Base.{
  ℕ, zero, suc, ◌+◌, ◌-◌, ◌*◌, ◌/◌, ◌%◌, ◌^◌, u32, u64, sub32, Option, none, some, List, [], ◌∷◌,
  ◌++◌, ltb, leb, ◌==◌, ◌&&◌, ◌||◌, not, if◌then◌else◌, length, get_or, set, take, drop, replicate,
  Bool, true, false,
}
use softether_android_client.Bytes.{write_u32, read_u32}
use softether_android_client.Accel.Context.{Context}
use softether_android_client.Accel.Window.{is_send_ready}
use softether_android_client.Accel.Send.{send}
use softether_android_client.Channel.Stream.{Write}
use softether_android_client.Channel.Inbox.{Inbox, pop}
use softether_android_client.Channel.Connection.{
  Connection, TcpSock, is_connected, is_disconnecting, slot, shut, retire,
}
use softether_android_client.Channel.Send.{Sent, data_block, send_packet, transmit_block_nolock}
use softether_android_client.Channel.Receive.{Library, Round, rudp_poll}

-- What sending meets: the poll of the UDP acceleration, the clock, `rand()` and the success of
-- `sendto` in `rudp_send`, and what the calls that write to the TCP sockets give.
pub record Sending : Type 0 where
  pub round : Round
  pub now : ℕ
  pub rand : ℕ
  pub sent : Bool
  pub writes : ℕ → List Write

-- What a call has done: the datagram and the TCP bytes that went out, and its result, `none` for -1.
pub record Done : Type 0 where
  pub connection : Connection
  pub udp : Option (List ℕ)
  pub tcp : Sent
  pub result : Option ℕ

abbrev pub fail : Connection → Done
fail c = record { connection = c; udp = none; tcp = []; result = none }

abbrev pub over_tcp : (Connection × Sent) × Option ℕ → Done
over_tcp ((c, log), r) = record { connection = c; udp = none; tcp = log; result = r }

abbrev pub transmitted : ℕ → (Connection × Sent) × Bool → Done
transmitted n ((c, log), ok) = record {
  connection = c;
  udp = none;
  tcp = log;
  result = if ok then some n else none;
}

abbrev pub broadcast : List ℕ
broadcast = replicate 6 255

-- The Ethernet frame of an IP packet.
unfoldable pub ip_frame : Connection → List ℕ → List ℕ
ip_frame c packet =
    let type : List ℕ =
      if (get_or packet 0 0 / 16) % 16 == 6 then 0x86 ∷ (0xDD ∷ []) else 0x08 ∷ (0x00 ∷ []) in
    (if c.gateway_mac_resolved then c.gateway_mac else broadcast)
    ++ (c.client_mac ++ (type ++ packet))

module _ (z : List ℕ → Option (List ℕ)) (l : Library) (m : Sending) where
  abbrev rudp_result : Connection → Context × Option (List ℕ) → Connection × Option (List ℕ)
  rudp_result c (x, pkt) = (record c { rudp = some x }, pkt)

  abbrev pub ready_result : Connection → List ℕ → Context × Bool → Connection × Option (List ℕ)
  ready_result c frame (x, true) =
      rudp_result c (send l.sha1 l.aead l.compress m.now m.sent m.rand frame 0 x)
  ready_result c frame (x, false) = (record c { rudp = some x }, none)

  abbrev pub rudp_of : Connection → List ℕ → Option Context → Connection × Option (List ℕ)
  rudp_of c frame none = (c, none)
  rudp_of c frame (some x) =
      ready_result c frame (is_send_ready c.session_established (rudp_poll l m.round x))

  -- The part of `softether_send_data` and `softether_send_data_block` that tries UDP.
  unfoldable pub try_rudp : List ℕ → Connection → Connection × Option (List ℕ)
  try_rudp frame c = if c.rudp_enabled then rudp_of c frame c.rudp else (c, none)

  abbrev pub udp_or : List ℕ → (Connection → Done) → Connection × Option (List ℕ) → Done
  udp_or frame k (c, none) = k c
  udp_or frame k (c, some pkt) = record {
    connection = c;
    udp = some pkt;
    tcp = [];
    result = some (length frame);
  }

  -- `softether_send_data_block` with a block that holds the frame.
  unfoldable pub send_data_block : List ℕ → List ℕ → Connection → Done
  send_data_block block frame c =
      udp_or frame (λ c'. transmitted (length frame) (transmit_block_nolock block m.writes c'))
        (try_rudp frame c)

  -- `softether_send_data`. `z` is what `compress_data` gives.
  unfoldable pub send_data : List ℕ → Connection → Done
  send_data frame c =
      if is_connected c.state
      then udp_or frame (λ c'. over_tcp (send_packet m.writes z frame c')) (try_rudp frame c)
      else fail c

  -- `softether_send_raw`
  unfoldable pub send_raw : List ℕ → Connection → Done
  send_raw frame c =
      if length frame == 0
      then fail c
      else if not (is_connected c.state)
      then fail c
      else send_data frame c

  -- The size of the largest IP packet, where the subtractions wrap.
  abbrev pub fits_block : Option ℕ → ℕ → Bool
  fits_block none n = false
  fits_block (some cap) n = leb n (sub32 (sub32 cap 8) 14)

  abbrev pub counted_as : ℕ → Done → Option ℕ → Done
  counted_as n d none = d
  counted_as n d (some k) = record d {
    connection = record (d.connection) {
      stats_tx_packets = u64 (d.connection.stats_tx_packets + 1);
      stats_tx_bytes = u64 (d.connection.stats_tx_bytes + n);
    };
    result = some n;
  }

  -- `softether_send`
  unfoldable pub send_ip : List ℕ → Connection → Done
  send_ip packet c =
      let frame = ip_frame c packet in
      if length packet == 0
      then fail c
      else if not (is_connected c.state)
      then fail c
      else if not (fits_block c.send_block_cap (length packet))
      then fail c
      else if is_disconnecting c.state || not c.ssl
      then fail c
      else (let d = send_data_block (data_block frame) frame c in
          counted_as (length packet) d d.result)

-- A byte of a frame.
abbrev pub byte : List ℕ → ℕ → ℕ
byte f i = get_or f i 0

abbrev pub word_at : List ℕ → ℕ → ℕ
word_at f i = read_u32 (byte f i) (byte f (i + 1)) (byte f (i + 2)) (byte f (i + 3))

-- What a frame in the queue is for the client.
unfoldable pub is_arp : List ℕ → Bool
is_arp f = leb 42 (length f) && (byte f 12 == 0x08 && byte f 13 == 0x06)

unfoldable pub is_ip : List ℕ → Bool
is_ip f =
    let ethertype = byte f 12 * 256 + byte f 13 in
    ltb 14 (length f) && (ethertype == 0x0800 || ethertype == 0x86DD)

-- An ARP packet of the Ethernet and IP kind with its addresses.
abbrev pub arp_packet : List ℕ → List ℕ → ℕ → List ℕ → ℕ → List ℕ → List ℕ → List ℕ
arp_packet dst src op sender_mac sender_ip target_mac target_ip =
    dst
    ++ (src
        ++ ((0x08 ∷ (0x06 ∷ (0 ∷ (1 ∷ (8 ∷ (0 ∷ (6 ∷ (4 ∷ (0 ∷ (op ∷ []))))))))))
            ++ (sender_mac ++ (write_u32 sender_ip ++ (target_mac ++ target_ip)))))

-- The answer of `softether_reply_arp_request`, when there is one.
unfoldable pub arp_reply : Connection → List ℕ → Option (List ℕ)
arp_reply c f =
    let reply =
      arp_packet (take 6 (drop 6 f)) c.client_mac 2 c.client_mac c.assigned_ip (take 6 (drop 22 f))
        (take 4 (drop 28 f)) in
    if not (byte f 20 == 0 && byte f 21 == 1 && not (c.assigned_ip == 0))
    then none
    else if word_at f 38 == c.assigned_ip
    then some reply
    else none

-- The request of `softether_resolve_gateway`.
unfoldable pub arp_request : Connection → ℕ → List ℕ
arp_request c ip =
    arp_packet broadcast c.client_mac 1 c.client_mac c.assigned_ip (replicate 6 0) (write_u32 ip)

-- Whether a frame answers that request.
unfoldable pub is_arp_answer : ℕ → List ℕ → Bool
is_arp_answer ip f =
    leb 42 (length f)
    && (byte f 12 == 0x08 && byte f 13 == 0x06 && (byte f 20 == 0 && byte f 21 == 2))
    && word_at f 28 == ip

-- What `softether_resolve_gateway` takes from an answer.
unfoldable pub resolved : List ℕ → Connection → Connection
resolved f c = record c { gateway_mac = take 6 (drop 22 f); gateway_mac_resolved = true }

abbrev done_raw : Done → Connection × Sent
done_raw d = (d.connection, d.tcp)

abbrev pub reply_with :
    (List ℕ → Option (List ℕ))
    → Library
    → Sending
    → Connection
    → Option (List ℕ)
    → Connection × Sent
reply_with z l m c none = (c, [])
reply_with z l m c (some reply) = done_raw (send_raw z l m reply c)

-- What `softether_reply_arp_request` does, with the TCP bytes that go out.
unfoldable pub reply_arp_request :
    (List ℕ → Option (List ℕ)) → Library → Sending → List ℕ → Connection → Connection × Sent
reply_arp_request z l m f c = reply_with z l m c (arp_reply c f)

abbrev pub pop_frame : Connection → Connection
pop_frame c = record c { inbox = record (c.inbox) { queue = pop c.inbox.queue } }

-- The frame at the head of the queue.
abbrev pub head_frame : Connection → List ℕ
head_frame c = c.inbox.queue.slots c.inbox.queue.head

-- 0, -1 and the bytes that a receive function copies out.
pub data Taken : Type 0 where
  nothing : Taken
  refused : Taken
  packet : List ℕ → Taken

-- The part of `softether_receive` that takes one frame from the queue.
unfoldable pub take_ip :
    (List ℕ → Option (List ℕ)) → Library → Sending → ℕ → Connection → (Connection × Sent) × Taken
take_ip z l m max_len c =
    let f = head_frame c in
    let (c', log) = reply_arp_request z l m f c in
    if c.inbox.queue.count == 0
    then ((c, []), nothing)
    else if is_arp f
    then ((pop_frame c', log), nothing)
    else if not (is_ip f)
    then ((pop_frame c, []), nothing)
    else if ltb max_len (length f - 14)
    then ((pop_frame c, []), refused)
    else ((pop_frame c, []), packet (drop 14 f))

-- The part of `softether_receive_raw` that takes one frame from the queue: one that is longer than
-- the buffer is dropped.
unfoldable pub take_raw : ℕ → Connection → Connection × Taken
take_raw max_len c =
    let f = head_frame c in
    if c.inbox.queue.count == 0
    then (c, nothing)
    else if ltb max_len (length f)
    then (pop_frame c, nothing)
    else (pop_frame c, packet f)

-- The loop of `softether_receive_batch` on one unit of fuel for each frame that waits, with the
-- packets in the order in which they stand in the buffer: `total` is their bytes so far and `left`
-- how many more are wanted. `m k` is what the `k`-th answer to a request meets.
module _ (z : List ℕ → Option (List ℕ)) (l : Library) (max_len : ℕ) where
  abbrev pub also :
      List ℕ → (Connection × Sent) × List (List ℕ) → (Connection × Sent) × List (List ℕ)
  also p (r, ps) = (r, p ∷ ps)

  abbrev pub after_sent :
      Sent → (Connection × Sent) × List (List ℕ) → (Connection × Sent) × List (List ℕ)
  after_sent log ((c, log'), ps) = ((c, log ++ log'), ps)

  unfoldable pub batch_loop :
      ℕ → (ℕ → Sending) → ℕ → ℕ → Connection → (Connection × Sent) × List (List ℕ)
  batch_loop zero m total left c = ((c, []), [])
  batch_loop (suc n) m total left c =
      let f = head_frame c in
      let (c', log) = reply_arp_request z l (m 0) f c in
      let ip_len = length f - 14 in
      let answered = after_sent log (batch_loop n (λ k. m (k + 1)) total left (pop_frame c')) in
      let passed = batch_loop n m total left (pop_frame c) in
      let taken = also (drop 14 f) (batch_loop n m (total + ip_len) (left - 1) (pop_frame c)) in
      if left == 0 || c.inbox.queue.count == 0
      then ((c, []), [])
      else if is_arp f
      then answered
      else if not (is_ip f)
      then passed
      else if ltb max_len (total + ip_len)
      then ((c, []), [])
      else taken
