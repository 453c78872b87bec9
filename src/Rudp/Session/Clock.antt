-- ===== src/Rudp/Session/Clock.antt =====
-- What the clock drives in rudp_transport.c: the keepalive and the retransmission of `rt_interrupt`,
-- and `rt_compute_poll_timeout`.
use softether_android_client.Base.{
  ℕ, ◌+◌, ◌-◌, ◌*◌, ◌/◌, ◌%◌, ◌^◌, u32, u64, List, [], ◌∷◌, ltb, leb, ◌==◌, ◌&&◌, ◌||◌, not,
  if◌then◌else◌, length, Bool,
}
use softether_android_client.Rudp.Session.{
  Status, connect_sent, established, disconnected, Segment, Session, queue_segment, seq_min,
  max_num_ack,
}

-- The keepalive of `rt_interrupt`; `r` is what `rand()` gives.
unfoldable pub keepalive : ℕ → ℕ → Session → Session
keepalive now r se =
    if (se.last_sent_tick == 0) || leb (u64 (se.last_sent_tick + se.next_keepalive_interval)) now
    then (let se' = if length se.send_segments == 0 then queue_segment se se.magic_req else se in
        record se' { next_keepalive_interval = 2500 + r % (4792 - 2500) })
    else se

-- The interval before the next transmission of a segment that was sent `num_sent` times.
unfoldable pub resend_interval : ℕ → ℕ → ℕ
resend_interval rtt num_sent =
    let shift = if ltb num_sent 10 then num_sent else 10 in
    let interval =
      if rtt == 0 then u32 (200 * 2 ^ shift) else u32 (u32 (rtt * 120) / 100 * 2 ^ shift) in
    if ltb 4792 interval then 4792 else interval

-- The retransmission loop: the segments as they are then, and those sent, in order.
abbrev pub resend_one : ℕ → ℕ → ℕ → Segment → Bool
resend_one now low rtt s =
    leb s.seq (u64 (low + max_num_ack - 1)) && ((s.next_send_tick == 0) || leb s.next_send_tick now)

abbrev pub resent : ℕ → ℕ → Segment → Segment
resent now rtt s = record s {
  num_sent = u32 (s.num_sent + 1);
  next_send_tick = u64 (now + resend_interval rtt s.num_sent);
}

unfoldable pub resend_loop : ℕ → ℕ → ℕ → List Segment → List Segment × List Segment
resend_loop now low rtt [] = ([], [])
resend_loop now low rtt (s ∷ ss) =
    let (kept, out) = resend_loop now low rtt ss in
    if resend_one now low rtt s then (resent now rtt s ∷ kept, s ∷ out) else (s ∷ kept, out)

-- What `rt_send_segment_now` of a segment leaves in the session: the pending acknowledgements went
-- out, and `rt_send_udp` notes the tick of every packet.
unfoldable pub after_send : ℕ → Session → Session
after_send tick se = record se { reply_acks = []; last_sent_tick = tick }

-- The loop, with the tick of the last transmission.
unfoldable pub retransmit : ℕ → ℕ → Session → Session × List Segment
retransmit now tick se =
    let (kept, out) = resend_loop now (seq_min se.send_segments) se.current_rtt se.send_segments in
    let se' = record se { send_segments = kept } in
    (if length out == 0 then se' else after_send tick se', out)

abbrev pub earlier : ℕ → ℕ → ℕ
earlier deadline tick = if ltb tick deadline then tick else deadline

unfoldable pub send_deadline : ℕ → List Segment → ℕ
send_deadline deadline [] = deadline
send_deadline deadline (s ∷ ss) =
    send_deadline (if s.next_send_tick == 0 then deadline else earlier deadline s.next_send_tick) ss

abbrev pub established_deadline : Session → ℕ → ℕ → ℕ
established_deadline se now deadline =
    if (not (length se.reply_acks == 0)) || ((leb 1 se.recv_fifo.size) || (leb 1 se.send_fifo.size))
    then now
    else earlier
        (send_deadline (earlier deadline (u64 (se.last_sent_tick + se.next_keepalive_interval)))
          se.send_segments)
        (u64 (se.latest_recv_my_tick + 12000))

unfoldable pub deadline_of : Status → ℕ → Session → ℕ → ℕ → ℕ
unfolding send_deadline
deadline_of connect_sent timeout se now deadline =
    earlier (earlier deadline (u64 (se.last_sent_tick + 200))) (u64 (se.created_tick + timeout))
deadline_of established timeout se now deadline = established_deadline se now deadline
deadline_of disconnected timeout se now deadline = deadline

-- `rt_compute_poll_timeout`, with `connect_timeout_ms`.
unfoldable pub compute_poll_timeout : ℕ → Session → ℕ → ℕ
unfolding deadline_of
compute_poll_timeout timeout se now =
    let deadline = deadline_of se.status timeout se now (u64 (now + 100)) in
    if leb deadline now then 0 else if ltb 1000 (deadline - now) then 1000 else deadline - now
