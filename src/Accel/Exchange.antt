-- ===== src/Accel/Exchange.antt =====
-- Sending and receiving together: `rudp_send` at one end, a round of `rudp_poll` at the other.
use softether_android_client.Base.{
  ℕ, ◌+◌, ◌%◌, ◌^◌, ◌≤◌, ◌<◌, ◌≡◌, refl, ap, arith, List, [], ◌∷◌, ◌++◌, length, some, Option, leb,
  ge→ltb, lt→ltb, ne→==, false, true, ◌&&◌, ◌==◌, Bool,
}
use softether_android_client.Accel.Context.{Context, Address, is_set}
use softether_android_client.Accel.Context.Queue.{IsRing, waiting, enqueue_lem}
use softether_android_client.Accel.Window.{cwin_on_loss}
use softether_android_client.Accel.Receive.{
  Inner, accept, accept_read, note_ticks, note_gap, note_peer, note_timing, queue_payload,
  queue_block, process_inner, outside_window,
}
use softether_android_client.Accel.Send.{
  send, send_nolock, send_payload, send_v1, transmit, packet_v1,
}
use softether_android_client.Accel.Send.Arrives.{IsSender, inner_of, decrypted, length-packet_v1}
use softether_android_client.Accel.Poll.{receive, receive_v1}

-- What the two ends have in common, and the room at the receiver.
pub record Linked (a b : Context) : Type 0 where
  pub ready : a.inited && is_set a.peer_addr ≡ true
  pub plain : a.use_compress ≡ false
  pub sender_version : a.version ≡ 1
  pub receiver_version : b.version ≡ 1
  pub iv_size : length a.next_iv ≡ 20
  pub same_key : b.your_key ≡ a.my_key
  pub same_cookie : b.my_cookie ≡ a.your_cookie
  pub cookie_fits : a.your_cookie < 2 ^ 32
  pub tick_fits : a.last_recv_your_tick < 2 ^ 64
  pub ring : IsRing b.recv_queue
  pub room : b.recv_queue.count < 256

notes_keep :
    (from : Address) (i : Inner) (c : Context)
    → (note_timing (note_peer from (note_gap i (note_ticks i c)))).recv_queue ≡ c.recv_queue
unfolding note_timing note_peer note_gap note_ticks cwin_on_loss
notes_keep from i c = ground arith

-- A block that is neither empty, too long nor compressed is queued.
accept-Queued :
    (uncompress : List ℕ → Option (List ℕ)) (from : Address) (i : Inner) (c : Context)
    → IsRing c.recv_queue
    → c.recv_queue.count < 256
    → outside_window i.my_tick c ≡ false
    → 1 ≤ length i.payload
    → length i.payload ≤ 1600
    → (i.flag % 2 == 1) ≡ false
    → (waiting (accept uncompress from i c).0.recv_queue ≡ waiting c.recv_queue ++ (i.payload ∷ []))
      × IsRing (accept uncompress from i c).0.recv_queue
unfolding accept queue_payload queue_block
accept-Queued uncompress from i c v room inside some_bytes fits plain =
    let q = enqueue_lem c.recv_queue i.payload v room in
    rw
      (
        inside,
        ne→== (length i.payload) 0 (omega arith),
        plain,
        ge→ltb 1600 (length i.payload) fits,
        notes_keep from i c,
        lt→ltb c.recv_queue.count 256 room,
      )
      (q.1, q.0)

module _ (sha1 : List ℕ → List ℕ) (aead : List ℕ → List ℕ → List ℕ → List ℕ × List ℕ)
    (aead_open : List ℕ → List ℕ → List ℕ → List ℕ → Option (List ℕ))
    (compress uncompress : List ℕ → Option (List ℕ)) where
  -- What `rudp_send` hands to `sendto` in version 1.
  send-packet_v1 :
      (now r : ℕ) (bs : List ℕ) (a b : Context)
      → Linked a b
      → length bs ≤ 1600
      → (send sha1 aead compress now true r bs 0 a).1
        ≡ some (packet_v1 sha1 r bs 0 (record a { now = now }))
  unfolding send send_nolock send_payload send_v1 transmit
  send-packet_v1 now r bs a b l short =
      rw
        (
          l.ready,
          l.plain,
          l.sender_version,
          ge→ltb 2020 (20 + 23 + length bs) (omega arith),
          and-false (leb 1 (length bs)),
        )
        refl
    where
      and-false : (x : Bool) → x && false ≡ false
      and-false true = refl
      and-false false = refl

  -- Two ends that agree on the key, the cookie and version 1 of the protocol, without compression:
  -- `rudp_send` of a block of 1 to 1,600 bytes sends a packet, and when that packet comes to the
  -- other end while its queue has room and the sender's clock is not 30 s behind, the block is put
  -- behind those that wait there, byte for byte, and the queue stays valid.
  pub receive-send :
      (now r tick : ℕ) (from : Address) (bs : List ℕ) (a b : Context)
      → Linked a b
      → now < 2 ^ 64
      → b.last_recv_your_tick < now + 30000
      → 1 ≤ length bs
      → length bs ≤ 1600
      → (pkt : List ℕ) × ((send sha1 aead compress now true r bs 0 a).1 ≡ some pkt)
        × (waiting
              (receive sha1 aead_open uncompress
                (record { tick = tick; from = from; bytes = pkt })
                b).recv_queue
            ≡ waiting b.recv_queue ++ (bs ∷ []))
        × IsRing
            (receive sha1 aead_open uncompress
              (record { tick = tick; from = from; bytes = pkt })
              b).recv_queue
  unfolding receive receive_v1 process_inner
  receive-send now r tick from bs a b l fits near some_bytes short =
      (packet_v1 sha1 r bs 0 sender, send-packet_v1 now r bs a b l short, delivered.0, delivered.1)
    where
      sender : Context
      sender = record a { now = now }

      receiver : Context
      receiver = record b { now = tick }

      s : IsSender sender
      s = record { cookie_fits = l.cookie_fits; now_fits = fits; tick_fits = l.tick_fits }

      arrived : Context
      arrived =
          receive sha1 aead_open uncompress
            (record { tick = tick; from = from; bytes = packet_v1 sha1 r bs 0 sender }) b

      is_accept : arrived ≡ (accept uncompress from (inner_of sender bs 0) receiver).0
      is_accept =
          rw
            (
              ge→ltb (length (packet_v1 sha1 r bs 0 sender)) 25 (
                  length-packet_v1 sha1 sender receiver s bs 0 r (omega arith) (omega arith)
                    l.iv_size l.same_key l.same_cookie),
              ap (λ v. v == 1) l.receiver_version,
            )
            (ap (λ m. (accept_read uncompress from m receiver).0)
              (decrypted sha1 sender receiver s bs 0 r (omega arith) (omega arith) l.iv_size
                l.same_key l.same_cookie))

      inside : outside_window (inner_of sender bs 0).my_tick receiver ≡ false
      inside = ground arith

      delivered :
          (waiting arrived.recv_queue ≡ waiting b.recv_queue ++ (bs ∷ []))
          × IsRing arrived.recv_queue
      delivered = rw is_accept (
          accept-Queued uncompress from (inner_of sender bs 0) receiver l.ring l.room inside
            some_bytes short refl)
