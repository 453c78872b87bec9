-- ===== src/Channel/Calls.antt =====
-- The calls of softether_protocol.c that move packets, each from its check of the state on, with the
-- upkeep of the links that the receiving ones begin with.
use softether_android_client.Base.{
  ℕ, zero, suc, ◌+◌, ◌-◌, u64, Option, none, some, List, [], ◌∷◌, ◌++◌, ltb, leb, ◌==◌, ◌&&◌, ◌||◌,
  not, if◌then◌else◌, length, set, Bool, true, false,
}
use softether_android_client.Accel.Context.{Context}
use softether_android_client.Channel.Stream.{Write}
use softether_android_client.Channel.Connection.{Connection, TcpSock, is_connected, slot, shut}
use softether_android_client.Channel.Send.{Sent, send_keepalive_all}
use softether_android_client.Channel.Receive.{
  Library, Meets, Filled, data_queued, no_data, error, fill_recv_queue,
}
use softether_android_client.Channel.Ethernet.{
  Sending, Taken, nothing, refused, take_ip, take_raw, batch_loop,
}

-- What the upkeep meets: the keepalives, the clock, whether a thread can be made, and for each
-- additional socket whether `poll` reports it as broken.
pub record Upkeep : Type 0 where
  pub sizes : ℕ → ℕ
  pub rands : ℕ → ℕ → ℕ
  pub writes : ℕ → List Write
  pub now : ℕ
  pub connect_now : ℕ
  pub created : Bool
  pub hung_up : ℕ → Bool

abbrev pub free_slot : ℕ → List TcpSock → Option ℕ
free_slot k [] = none
free_slot k (t ∷ ts) = let rest = free_slot (k + 1) ts in if t.active then rest else some k

-- The start of a thread that connects an additional socket.
abbrev pub start_thread : Bool → Option ℕ → Connection → Connection
start_thread created none c = c
start_thread true (some k) c = record c {
  additional_connecting = true;
  additional_connect_slot = some k;
}
start_thread false (some k) c = record c {
  additional_connecting = false;
  additional_connect_slot = none;
}

unfoldable pub launch : Upkeep → Connection → Connection
launch u c =
    let due = (c.next_connect_time == 0) || leb c.next_connect_time u.connect_now in
    let c' = start_thread u.created (free_slot 0 c.additional) c in
    if ltb c.num_additional (c.max_connection - 1)
      && (ltb c.additional_failed_count 16 && not c.additional_connecting)
      && due
    then record c' { next_connect_time = u64 (u.connect_now + 1000) }
    else c

abbrev pub is_slot : ℕ → Option ℕ → Bool
is_slot k none = false
is_slot k (some j) = k == j

-- The closing of slot `k`, when its socket is broken.
unfoldable pub clean_slot : Upkeep → ℕ → Connection → Connection
clean_slot u k c =
    let t = slot k c in
    if t.active
      && not (c.additional_connecting && is_slot k c.additional_connect_slot)
      && u.hung_up k
    then record c {
      additional = set c.additional k (record (shut t) { last_recv = 0 });
      num_additional = c.num_additional - 1;
    }
    else c

-- The loop over the slots from `k` on.
unfoldable pub clean_up : Upkeep → ℕ → ℕ → Connection → Connection
clean_up u zero k c = c
clean_up u (suc n) k c = clean_up u n (k + 1) (clean_slot u k c)

-- `softether_maintain_links`
unfoldable pub maintain_links : Upkeep → Connection → Connection × Sent
maintain_links u c =
    let ((c', log), r) = send_keepalive_all u.sizes u.rands u.writes c u.now in
    (clean_up u 8 0 (launch u c'), log)

-- What a receiving call meets.
pub record Receiving : Type 0 where
  pub upkeep : Upkeep
  pub meets : Meets
  pub answers : ℕ → Sending

module _ (z : List ℕ → Option (List ℕ)) (unzip : ℕ → List ℕ → Option (List ℕ)) (l : Library) where
  -- The queue is filled when it is empty.
  unfoldable pub fill_if_empty : Meets → Connection → (Connection × Sent) × Filled
  fill_if_empty m c =
      if c.inbox.queue.count == 0 then fill_recv_queue unzip l m c else ((c, []), data_queued)

  abbrev pub log_before : {X : Type 0} → Sent → (Connection × Sent) × X → (Connection × Sent) × X
  log_before log ((c, log'), x) = ((c, log ++ log'), x)

  abbrev pub then_take :
      (Connection × Sent) × Filled
      → (Connection → (Connection × Sent) × Taken)
      → (Connection × Sent) × Taken
  then_take ((c, log), error) k = ((c, log), refused)
  then_take ((c, log), no_data) k = ((c, log), nothing)
  then_take ((c, log), data_queued) k = log_before log (k c)

  -- `softether_receive`
  unfoldable pub receive : Receiving → ℕ → Connection → (Connection × Sent) × Taken
  receive r max_len c =
      let (c', log) = maintain_links r.upkeep c in
      if max_len == 0
      then ((c, []), refused)
      else if not (is_connected c.state)
      then ((c, []), refused)
      else log_before log (then_take (fill_if_empty r.meets c') (take_ip z l (r.answers 0) max_len))

  abbrev pub taken_raw : Connection × Taken → (Connection × Sent) × Taken
  taken_raw (c, t) = ((c, []), t)

  -- `softether_receive_raw`
  unfoldable pub receive_raw : Meets → ℕ → Connection → (Connection × Sent) × Taken
  receive_raw m max_len c =
      if is_connected c.state
      then then_take (fill_if_empty m c) (λ c'. taken_raw (take_raw max_len c'))
      else ((c, []), refused)

  abbrev size_of : List (List ℕ) → ℕ
  size_of [] = 0
  size_of (p ∷ ps) = length p + size_of ps

  -- The counters at the end of `softether_receive_batch`.
  unfoldable pub count_batch :
      (Connection × Sent) × List (List ℕ) → (Connection × Sent) × List (List ℕ)
  count_batch ((c, log), ps) = (
    (
      record c {
        stats_rx_packets = u64 (c.stats_rx_packets + length ps);
        stats_rx_bytes = u64 (c.stats_rx_bytes + size_of ps);
      },
      log,
    ),
    ps,
  )

  abbrev pub batch_of :
      ℕ
      → ℕ
      → (ℕ → Sending)
      → (Connection × Sent) × Filled
      → (Connection × Sent) × Option (List (List ℕ))
  batch_of max_len max_packets m ((c, log), error) = ((c, log), none)
  batch_of max_len max_packets m ((c, log), f) =
      let ((c', log'), ps) =
        count_batch (batch_loop z l max_len c.inbox.queue.count m 0 max_packets c) in
      ((c', log ++ log'), some ps)

  -- `softether_receive_batch`: the packets that it copies out, or `none` for -1.
  unfoldable pub receive_batch :
      Receiving → ℕ → ℕ → Connection → (Connection × Sent) × Option (List (List ℕ))
  receive_batch r max_len max_packets c =
      let (c', log) = maintain_links r.upkeep c in
      if (max_len == 0) || (max_packets == 0)
      then ((c, []), some [])
      else if not (is_connected c.state)
      then ((c, []), none)
      else log_before log (batch_of max_len max_packets r.answers (fill_if_empty r.meets c'))

-- `softether_get_stats`
pub record Stats : Type 0 where
  pub tx_packets : ℕ
  pub tx_bytes : ℕ
  pub rx_packets : ℕ
  pub rx_bytes : ℕ
  pub rx_skipped_blocks : ℕ
  pub rudp_overflow_count : ℕ
  pub rudp_rx_packets : ℕ
  pub rudp_tick_gaps : ℕ
  pub rudp_data_suspended : Bool

unfoldable pub get_stats : Connection → Stats
get_stats c = record {
  tx_packets = c.stats_tx_packets;
  tx_bytes = c.stats_tx_bytes;
  rx_packets = c.stats_rx_packets;
  rx_bytes = c.stats_rx_bytes;
  rx_skipped_blocks = c.inbox.rx_skipped_blocks;
  rudp_overflow_count = of_rudp (λ x. x.recv_queue_overflow_count);
  rudp_rx_packets = of_rudp (λ x. x.udp_rx_packets);
  rudp_tick_gaps = of_rudp (λ x. x.peer_tick_gap_events);
  rudp_data_suspended = suspended c.rudp;
}
  where
    of_rudp : (Context → ℕ) → ℕ
    of_rudp f = elim c.rudp [ none ↦ 0 | some x ↦ f x ]

    suspended : Option Context → Bool
    suspended none = false
    suspended (some x) = x.udp_data_suspended
