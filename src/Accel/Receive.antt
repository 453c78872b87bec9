-- ===== src/Accel/Receive.antt =====
-- `rudp_process_inner`. Decompression is a call of zlib and a parameter: `none` is an error, and
-- what it gives fits the 1,856 bytes that it is offered.
use softether_android_client.Base.{
  ℕ, ◌+◌, ◌-◌, ◌%◌, ◌^◌, u64, Option, none, some, List, [], ◌∷◌, ltb, leb, ◌==◌, ◌&&◌, ◌||◌, not,
  if◌then◌else◌, length, take, drop, Bool, true, false,
}
use softether_android_client.Bytes.{fold_bytes}
use softether_android_client.Pack.Reader.{◌>>=◌}
use softether_android_client.Accel.Context.{
  Context, Address, recv_queue_size, max_payload_size, enqueue,
}
use softether_android_client.Accel.Window.{cwin_on_loss}

-- A check of the size, then `memcpy` and `ntohl`, `be64toh` or `ntohs` of `n` bytes.
unfoldable pub read_be : ℕ → List ℕ → Option (ℕ × List ℕ)
read_be n buf = if ltb (length buf) n then none else some (fold_bytes 0 (take n buf), drop n buf)

-- The fields behind the cookie, with the `inner_size` bytes of data.
pub record Inner : Type 0 where
  pub my_tick : ℕ
  pub your_tick : ℕ
  pub flag : ℕ
  pub payload : List ℕ

unfoldable pub all_zero : List ℕ → Bool
all_zero [] = true
all_zero (b ∷ bs) = (b == 0) && all_zero bs

-- The last 20 bytes have to be zero; a packet of version 2 is not looked at.
unfoldable pub verified : Bool → List ℕ → Bool
verified verify_padding rest =
    not verify_padding || (leb 20 (length rest) && all_zero (drop (length rest - 20) rest))

unfoldable pub read_inner : ℕ → Bool → List ℕ → Option Inner
read_inner my_cookie verify_padding buf = do
  (cookie, buf) ← read_be 4 buf
  buf ← if cookie == my_cookie then some buf else none
  (my_tick, buf) ← read_be 8 buf
  (your_tick, buf) ← read_be 8 buf
  (inner_size, buf) ← read_be 2 buf
  (flag, buf) ← read_be 1 buf
  if ltb (length buf) inner_size
      then none
      else if verified verify_padding (drop inner_size buf)
      then some (record {
        my_tick = my_tick;
        your_tick = your_tick;
        flag = flag;
        payload = take inner_size buf;
      })
      else none

-- The window check: too far behind the newest tick of the peer.
abbrev pub outside_window : ℕ → Context → Bool
outside_window my_tick c =
    ltb my_tick c.last_recv_your_tick && leb 30000 (c.last_recv_your_tick - my_tick)

abbrev pub greater : ℕ → ℕ → ℕ
greater a b = if ltb b a then a else b

unfoldable pub note_ticks : Inner → Context → Context
note_ticks i c = record c {
  last_recv_my_tick = greater i.your_tick c.last_recv_my_tick;
  last_recv_your_tick = greater i.my_tick c.last_recv_your_tick;
}

-- A jump of the peer's clock by more than RUDP_PEER_TICK_LOSS_GAP counts as a loss.
unfoldable pub note_gap : Inner → Context → Context
note_gap i c =
    let c' =
      if not (c.last_peer_tick_seen == 0) && ltb (u64 (c.last_peer_tick_seen + 10000)) i.my_tick
      then cwin_on_loss (record c { peer_tick_gap_events = u64 (c.peer_tick_gap_events + 1) })
      else c in
    record c' { last_peer_tick_seen = i.my_tick; udp_rx_packets = u64 (c'.udp_rx_packets + 1) }

unfoldable pub note_peer : Address → Context → Context
note_peer from c = record c { peer_addr = some from; is_ipv6 = from.is_ipv6 }

unfoldable pub note_timing : Context → Context
note_timing c =
    if not (c.last_recv_my_tick == 0) && leb c.now (u64 (c.last_recv_my_tick + 30000))
    then record c {
      last_recv_tick = c.now;
      first_stable_receive_tick =
          if c.first_stable_receive_tick == 0 then c.now else c.first_stable_receive_tick;
    }
    else c

-- The end of the function, with the bytes to queue.
unfoldable pub queue_block : List ℕ → Context → Context
queue_block bs c =
    if ltb max_payload_size (length bs)
    then c
    else if ltb c.recv_queue.count recv_queue_size
    then record c { recv_queue = enqueue bs c.recv_queue }
    else cwin_on_loss (record c {
      recv_queue_overflow_count = u64 (c.recv_queue_overflow_count + 1);
      recent_overflows = (c.recent_overflows + 1) % 2 ^ 32;
    })

module _ (uncompress : List ℕ → Option (List ℕ)) where
  -- The result is whether 0 is returned.
  unfoldable pub queue_payload : Inner → Context → Context × Bool
  queue_payload i c =
      if length i.payload == 0
      then (c, true)
      else if i.flag % 2 == 1
      then elim (uncompress i.payload) [ none ↦ (c, false) | some bs ↦ (queue_block bs c, true) ]
      else (queue_block i.payload c, true)

  unfoldable pub accept : Address → Inner → Context → Context × Bool
  accept from i c =
      if outside_window i.my_tick c
      then (c, false)
      else queue_payload i (note_timing (note_peer from (note_gap i (note_ticks i c))))

  abbrev pub accept_read : Address → Option Inner → Context → Context × Bool
  accept_read from none c = (c, false)
  accept_read from (some i) c = accept from i c

  -- `rudp_process_inner`
  unfoldable pub process_inner : List ℕ → Address → Bool → Context → Context × Bool
  process_inner buf from verify_padding c =
      accept_read from (read_inner c.my_cookie verify_padding buf) c
