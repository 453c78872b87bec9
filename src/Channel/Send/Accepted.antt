-- ===== src/Channel/Send/Accepted.antt =====
-- What the sending half writes is what the receiving half reads.
use softether_android_client.Base.{
  ℕ, zero, suc, ◌+◌, ◌-◌, ◌^◌, ◌≤◌, ◌<◌, ◌≡◌, refl, sym, ap, ◌∙◌, arith, Option, some, List, [],
  ◌∷◌, ◌++◌, append-nil, length, ltb, leb, ◌&&◌, ◌||◌, not, if◌then◌else◌, Bool-cases, inl, inr,
  true, lt→ltb, take, drop, min,
}
use softether_android_client.Bytes.{write_u32}
use softether_android_client.Channel.Stream.{Arrival, Wire, read_all, Write}
use softether_android_client.Channel.Stream.Flow.{IsFlowing, content, flat_read, flat_read-front}
use softether_android_client.Channel.Inbox.{
  Inbox, Ending, done, keepalive, and_then, read_message, keepalive_payload, keep_alive_magic,
  max_queued_frame, queue_size, frame_of,
}
use softether_android_client.Channel.Inbox.Queue.{IsRing, waiting}
use softether_android_client.Channel.Inbox.Blocks.{blocks, message, read_word}
use softether_android_client.Channel.Inbox.Message.{
  read_message-Takes, keep, queueable, is_full, frames_of,
}
use softether_android_client.Channel.Connection.{Connection, is_down, slot}
use softether_android_client.Channel.Send.Failover.{write_to-Outcome, outcome_of}
use softether_android_client.Channel.Inbox.Fragments.{read_message-Alike}
use softether_android_client.Channel.Send.{
  Sent, fits_in, select_send_socket, data_block, write_selected, write_to, send_packet,
  send_payload,
}

data_block-message : (bs : List ℕ) → data_block bs ≡ message (bs ∷ [])
unfolding data_block message blocks
data_block-message bs = ap (λ t. write_u32 1 ++ (write_u32 (length bs) ++ t)) (sym (append-nil bs))

one_queued :
    (z : Option (ℕ → List ℕ → Option (List ℕ))) (n : ℕ) (bs : List ℕ)
    → 0 < n
    → 0 < length bs
    → length bs ≤ max_queued_frame
    → frames_of z (take n (keep queueable (bs ∷ []))) ≡ frame_of z bs ∷ []
one_queued z zero bs h long short = absurd (omega arith)
one_queued z (suc n) bs h long short =
    let full : is_full bs ≡ true = lt→ltb _ _ long in
    let small : leb (length bs) max_queued_frame ≡ true = ground (arith, short) in
    rw (full, small) (one_left n)
  where
    one_left : (n : ℕ) → frames_of z (take (suc n) (bs ∷ [])) ≡ frame_of z bs ∷ []
    one_left zero = refl
    one_left (suc n) = refl

-- The bytes that went out, in order.
abbrev pub sent_bytes : Sent → List ℕ
sent_bytes [] = []
sent_bytes ((i, bs) ∷ log) = bs ++ sent_bytes log

-- Of a block of 1 to 2,048 bytes that comes in, however the network cuts it up, the frame that it
-- stands for is queued behind those that wait, as long as the queue has room.
pub data_block-queued :
    (w : Wire) (z : Option (ℕ → List ℕ → Option (List ℕ))) (bs : List ℕ) (i : Inbox)
    (s : List Arrival) (rest : List ℕ)
    → 0 < length bs
    → length bs ≤ max_queued_frame
    → IsRing i.queue
    → i.queue.count < queue_size
    → i.rx_skipped_blocks < 2 ^ 32
    → IsFlowing s
    → content s ≡ data_block bs ++ rest
    → ((read_message (read_all w) z i s).0.0 ≡ done)
      × (waiting (read_message (read_all w) z i s).0.1.queue
          ≡ waiting i.queue ++ (frame_of z bs ∷ []))
      × (content (read_message (read_all w) z i s).1 ≡ rest)
data_block-queued w z bs i s rest long short v room hs flow e =
    let h =
      read_message-Takes w z (bs ∷ []) i s rest (omega (arith, short), tt) (omega arith)
        (omega arith) v hs flow (e ∙ ap (λ t. t ++ rest) (data_block-message bs)) in
    (
      h.0,
      h.1.queued
          ∙ ap (λ (t : List (List ℕ)). waiting i.queue ++ t)
              (one_queued z (queue_size - i.queue.count) bs (omega arith) long short),
      h.2,
    )

payload-flat :
    (i : Inbox) (p rest : List ℕ)
    → keepalive_payload flat_read (length p) i (p ++ rest)
      ≡ ((keepalive, i), drop (min 512 (length p)) p ++ rest)
unfolding keepalive_payload and_then
payload-flat i p rest =
    rw (flat_read-front (if ltb 512 (length p) then 512 else length p) p rest (ground arith))
      (ap (λ n. ((keepalive, i), drop n p ++ rest)) (capped (length p)))
  where
    capped : (n : ℕ) → (if ltb 512 n then 512 else n) ≡ min 512 n
    capped n = ground arith

keepalive-flat :
    (z : Option (ℕ → List ℕ → Option (List ℕ))) (i : Inbox) (p rest : List ℕ)
    → length p < 2 ^ 32
    → read_message flat_read z i
        (write_u32 keep_alive_magic ++ (write_u32 (length p) ++ (p ++ rest)))
      ≡ ((keepalive, i), drop (min 512 (length p)) p ++ rest)
unfolding read_message and_then
keepalive-flat z i p rest h =
    rw
      (
        read_word keep_alive_magic (write_u32 (length p) ++ (p ++ rest)) (omega arith),
        read_word (length p) (p ++ rest) h,
      )
      (payload-flat i p rest)

-- Of a keepalive 512 bytes at most are taken off the stream: when its payload is longer, the rest of
-- it stands before the next message and is read as the start of one. The queue is left as it was.
pub read_message-keepalive :
    (w : Wire) (z : Option (ℕ → List ℕ → Option (List ℕ))) (p : List ℕ) (i : Inbox)
    (s : List Arrival) (rest : List ℕ)
    → length p < 2 ^ 32
    → IsFlowing s
    → content s ≡ write_u32 keep_alive_magic ++ (write_u32 (length p) ++ (p ++ rest))
    → ((read_message (read_all w) z i s).0 ≡ (keepalive, i))
      × (content (read_message (read_all w) z i s).1 ≡ drop (min 512 (length p)) p ++ rest)
read_message-keepalive w z p i s rest h flow e =
    let same = read_message-Alike w z i s flow in
    let flat = ap (read_message flat_read z i) e ∙ keepalive-flat z i p rest h in
    (
      same.0 ∙ ap (λ (r : (Ending × Inbox) × List ℕ). r.0) flat,
      same.2 ∙ ap (λ (r : (Ending × Inbox) × List ℕ). r.1) flat,
    )

-- A call that succeeds wrote the whole block to one socket.
write_selected-whole :
    (writes : ℕ → List Write) (block : List ℕ) (i n : ℕ) (c : Connection)
    → (write_selected writes block i c).1 ≡ some n
    → (write_selected writes block i c).0.1 ≡ (i, block) ∷ []
unfolding write_selected
write_selected-whole writes block i n c =
    elim (Bool-cases (ltb 0 i && not ((slot (i - 1) c).active && (slot (i - 1) c).ssl))) [
      | inl stale ↦ rw stale (λ h. absurd (cc h))
      | inr fresh ↦ elim (Bool-cases (write_to i c block (writes i)).1) [
        | inl ok ↦
            rw (fresh, ok)
              (λ h.
                ap (λ (t : List ℕ). (i, t) ∷ [])
                  (outcome_of block writes true _ ok (write_to-Outcome block writes i c)))
        | inr broken ↦ rw (fresh, broken) (λ h. absurd (cc h))
      ]
    ]

send_packet-whole :
    (compress : List ℕ → Option (List ℕ)) (writes : ℕ → List Write) (payload : List ℕ)
    (c : Connection) (n : ℕ)
    → (send_packet writes compress payload c).1 ≡ some n
    → (idx : ℕ) × ((send_packet writes compress payload c).0.1
        ≡ (idx, data_block (send_payload compress c payload)) ∷ [])
unfolding send_packet
send_packet-whole compress writes payload c n =
    let bs = send_payload compress c payload in
    elim (Bool-cases (is_down c.state || not c.ssl)) [
      | inl down ↦ rw down (λ h. absurd (cc h))
      | inr up ↦ elim (Bool-cases (fits_in c.send_block_cap (8 + length bs))) [
        | inl fits ↦
            rw (up, fits)
              (λ h. (
                (select_send_socket c).1,
                write_selected-whole writes (data_block bs) (select_send_socket c).1 n
                    (select_send_socket c).0 h,
              ))
        | inr too_long ↦ rw (up, too_long) (λ h. absurd (cc h))
      ]
    ]

-- A packet that `softether_send_packet` sends whole goes out on one socket, and to an end that
-- unpacks what this one packs, in a block of 1 to 2,048 bytes, it comes as it was, behind the frames
-- that wait and nothing else, however the network cuts it up, as long as that queue has room.
pub send_packet-queued :
    (compress : List ℕ → Option (List ℕ)) (writes : ℕ → List Write) (payload : List ℕ)
    (c : Connection) (n : ℕ) (w : Wire) (z : Option (ℕ → List ℕ → Option (List ℕ))) (i : Inbox)
    (s : List Arrival) (rest : List ℕ)
    → (send_packet writes compress payload c).1 ≡ some n
    → frame_of z (send_payload compress c payload) ≡ payload
    → 0 < length (send_payload compress c payload)
    → length (send_payload compress c payload) ≤ max_queued_frame
    → IsRing i.queue
    → i.queue.count < queue_size
    → i.rx_skipped_blocks < 2 ^ 32
    → IsFlowing s
    → content s ≡ sent_bytes (send_packet writes compress payload c).0.1 ++ rest
    → (length (send_packet writes compress payload c).0.1 ≡ 1)
      × ((read_message (read_all w) z i s).0.0 ≡ done)
      × (waiting (read_message (read_all w) z i s).0.1.queue ≡ waiting i.queue ++ (payload ∷ []))
      × (content (read_message (read_all w) z i s).1 ≡ rest)
send_packet-queued compress writes payload c n w z i s rest sent unpacks long short v room hs flow
      e =
    let (idx, whole) = send_packet-whole compress writes payload c n sent in
    let block = data_block (send_payload compress c payload) in
    let bytes : content s ≡ block ++ rest =
      e
      ∙ ap (λ (log : Sent). sent_bytes log ++ rest) whole
      ∙ ap (λ t. t ++ rest) (append-nil block) in
    let h =
      data_block-queued w z (send_payload compress c payload) i s rest long short v room hs flow
        bytes in
    (
      ap (λ (log : Sent). length log) whole,
      h.0,
      h.1 ∙ ap (λ t. waiting i.queue ++ (t ∷ [])) unpacks,
      h.2,
    )
