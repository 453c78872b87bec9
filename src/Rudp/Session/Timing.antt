-- ===== src/Rudp/Session/Timing.antt =====
-- The timers of the session.
use softether_android_client.Base.{
  ℕ, ◌+◌, ◌≤◌, ◌<◌, ◌≡◌, ◌^◌, ◌⊎◌, arith, List, [], ◌∷◌, ◌==◌, if◌then◌else◌, length, u64,
}
use softether_android_client.Rudp.Session.{
  Status, connect_sent, established, disconnected, Session, Segment,
}
use softether_android_client.Rudp.Session.Clock.{
  send_deadline, earlier, deadline_of, compute_poll_timeout,
}

send_deadline-le : (d : ℕ) (ss : List Segment) → send_deadline d ss ≤ d
unfolding send_deadline
send_deadline-le d [] = omega arith
send_deadline-le d (s ∷ ss) =
    ground
      (arith, send_deadline-le (if s.next_send_tick == 0 then d else earlier d s.next_send_tick) ss)

deadline_of-le :
    (status : Status) (timeout now d : ℕ) (se : Session)
    → now ≤ d
    → deadline_of status timeout se now d ≤ d
unfolding deadline_of
deadline_of-le connect_sent timeout now d se h = ground arith
deadline_of-le established timeout now d se h = ground (
  arith,
  send_deadline-le (earlier d (u64 (se.last_sent_tick + se.next_keepalive_interval)))
      se.send_segments,
)
deadline_of-le disconnected timeout now d se h = omega arith

-- While the clock plus 100 stays within 64 bits, the worker never sleeps longer than the 100 ms of
-- RUDP_T_LOOP_WAIT_MS, in any state of the session.
pub compute_poll_timeout-le :
    (timeout : ℕ) (se : Session) (now : ℕ)
    → now + 100 < 2 ^ 64
    → compute_poll_timeout timeout se now ≤ 100
unfolding compute_poll_timeout
compute_poll_timeout-le timeout se now h =
    ground (arith, deadline_of-le se.status timeout now (u64 (now + 100)) se)

-- The poll timeout of an established session is 0 while acknowledgements are pending or one of the
-- two FIFOs holds a byte.
pub compute_poll_timeout_busy :
    (timeout : ℕ) (se : Session) (now : ℕ)
    → se.status ≡ established
    → (0 < length se.reply_acks) ⊎ ((0 < se.recv_fifo.size) ⊎ (0 < se.send_fifo.size))
    → compute_poll_timeout timeout se now ≡ 0
unfolding compute_poll_timeout deadline_of
compute_poll_timeout_busy timeout se now e h = rw e (ground arith)
