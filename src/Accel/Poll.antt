-- ===== src/Accel/Poll.antt =====
-- `rudp_poll_nolock`: the time-out, the keepalive and the datagrams that have come in. The ticks
-- and what `rand()` gives are arguments, and so is what the socket holds.
use softether_android_client.Base.{
  ℕ, ◌+◌, ◌-◌, ◌%◌, u64, Option, none, some, List, [], ◌∷◌, ltb, leb, ◌==◌, ◌&&◌, ◌||◌, not,
  if◌then◌else◌, length, take, drop, Bool, true, false,
}
use softether_android_client.Crypto.Rc4.{rc4_crypt}
use softether_android_client.Accel.Context.{Context, Address, is_fast, is_set}
use softether_android_client.Accel.Window.{timeout_value}
use softether_android_client.Accel.Receive.{process_inner}
use softether_android_client.Accel.Send.{calc_key, send}

-- What `recvfrom` gives, at most the 2,048 bytes of the buffer, with the tick read after it.
pub record Datagram : Type 0 where
  pub tick : ℕ
  pub from : Address
  pub bytes : List ℕ

-- Silence for too long starts the stable period anew and counts as a loss.
unfoldable pub check_silence : Context → Context
check_silence c =
    if not (c.last_recv_tick == 0) && ltb (u64 (c.last_recv_tick + timeout_value c.mss)) c.now
    then record c { first_stable_receive_tick = 0; last_loss_event_tick = c.now }
    else c

-- What `rand()` gives for the keepalive's padding and for the next interval, the clock in
-- between, and whether `sendto` succeeds.
pub record Chance : Type 0 where
  pub padding : ℕ
  pub interval : ℕ
  pub tick : ℕ
  pub sent : Bool

abbrev pub keepalive_interval : ℕ → ℕ → ℕ
keepalive_interval mss r = if is_fast mss then 500 + r % 500 else 1000 + r % 2000

module _ (sha1 : List ℕ → List ℕ) (aead : List ℕ → List ℕ → List ℕ → List ℕ × List ℕ)
    (compress : List ℕ → Option (List ℕ)) where
  -- `rudp_send_keepalive`, the packet kept.
  unfoldable pub send_keepalive : Chance → Context → Context × Option (List ℕ)
  send_keepalive r c =
      if is_set c.peer_addr
      then send sha1 aead compress r.tick r.sent r.padding [] 0 c
      else (c, none)

  unfoldable pub keepalive : Chance → Context → Context × Option (List ℕ)
  keepalive r c =
      let (c', pkt) = send_keepalive r c in
      if (c.next_send_keepalive == 0) || leb c.next_send_keepalive c.now
      then (
        record c' { next_send_keepalive = u64 (c'.now + keepalive_interval c'.mss r.interval) },
        pkt,
      )
      else (c, none)

-- `aead_open` is what OpenSSL gives for a key, a vector, a ciphertext and a tag.
module _ (sha1 : List ℕ → List ℕ) (aead_open : List ℕ → List ℕ → List ℕ → List ℕ → Option (List ℕ))
    (uncompress : List ℕ → Option (List ℕ)) where
  unfoldable pub receive_v1 : Address → List ℕ → Context → Context
  receive_v1 from pkt c =
      (process_inner uncompress (rc4_crypt (calc_key sha1 c.your_key (take 20 pkt)) (drop 20 pkt))
        from true c).0

  abbrev pub process_opened : Address → Option (List ℕ) → Context → Context
  process_opened from none c = c
  process_opened from (some inner) c = (process_inner uncompress inner from false c).0

  unfoldable pub receive_v2 : Address → List ℕ → Context → Context
  receive_v2 from pkt c =
      let size = length pkt - 28 in
      if ltb (length pkt) 33
      then c
      else process_opened from
          (aead_open c.your_key_v2 (take 12 pkt) (take size (drop 12 pkt))
            (drop (length pkt - 16) pkt))
          c

  -- One round of the receive loop.
  unfoldable pub receive : Datagram → Context → Context
  receive d c =
      let c' = record c { now = d.tick } in
      if ltb (length d.bytes) 25
      then c
      else if c.version == 1
      then receive_v1 d.from d.bytes c'
      else if c.version == 2
      then receive_v2 d.from d.bytes c'
      else c'

  unfoldable pub receive_all : List Datagram → Context → Context
  receive_all [] c = c
  receive_all (d ∷ ds) c = receive_all ds (receive d c)

module _ (sha1 : List ℕ → List ℕ) (aead : List ℕ → List ℕ → List ℕ → List ℕ × List ℕ)
    (aead_open : List ℕ → List ℕ → List ℕ → List ℕ → Option (List ℕ))
    (compress uncompress : List ℕ → Option (List ℕ)) where
  unfoldable pub poll_nolock : ℕ → Chance → List Datagram → Context → Context × Option (List ℕ)
  poll_nolock now r ds c =
      let (c', pkt) = keepalive sha1 aead compress r (check_silence (record c { now = now })) in
      (receive_all sha1 aead_open uncompress ds c', pkt)

  -- `rudp_poll`
  unfoldable pub poll : ℕ → Chance → List Datagram → Context → Context × Option (List ℕ)
  poll now r ds c = if c.inited then poll_nolock now r ds c else (c, none)
