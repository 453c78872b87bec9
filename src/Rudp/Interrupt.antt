-- ===== src/Rudp/Interrupt.antt =====
-- `rt_interrupt` of rudp_transport.c as one step, with `rt_set_disconnected` and
-- `rt_pump_recv_to_pair`, for a transport in plain UDP mode. The packets that go out are the second
-- part of each result. `error_code` is left out.
pub mod Holds
pub mod Queues
pub mod Delivers
use softether_android_client.Base.{
  ℕ, zero, suc, ◌+◌, ◌-◌, ◌%◌, ◌^◌, u64, Option, none, some, List, [], ◌∷◌, ◌++◌, ltb, leb, ◌==◌,
  ◌&&◌, ◌||◌, not, if◌then◌else◌, length, take, drop, replicate, Bool, true, false,
}
use softether_android_client.Rudp.Fifo.{Fifo, advance}
use softether_android_client.Rudp.Session.{
  Status, connect_sent, established, disconnected, Segment, Session, new_segment, seq_min, drain,
  pump_pair_to_send, segment_send_fifo, max_fifo_size,
}
use softether_android_client.Rudp.Session.Clock.{keepalive, resend_loop}
use softether_android_client.Rudp.Packet.{Transport, signal, is_disconnected, is_connect_sent}
use softether_android_client.Rudp.Send.{send_segment_now}

-- The clock and what `rand()` gives for the padding and the next vector of a packet.
pub record Draw : Type 0 where
  pub tick : ℕ
  pub padding : ℕ
  pub iv : ℕ

-- What the surroundings give to a step: the tail of the connection request and the place of the
-- next vector in it, the results of `send` on the socket pair (`none` is an error), what `recv` on
-- it gives until it would block, whether it then ends or fails, the draw for the interval of the
-- keepalive, and the draws for the packets.
pub record Surroundings : Type 0 where
  pub request_tail : List ℕ
  pub request_iv : ℕ
  pub taken : List (Option ℕ)
  pub chunks : List (List ℕ)
  pub closed : Bool
  pub interval : ℕ
  pub farewells : ℕ → Draw
  pub draws : ℕ → Draw

abbrev pub Step : Type 0
Step = Transport × List (List ℕ)

abbrev pub followed_by : Step → (Transport → Step) → Step
followed_by (t, pkts) f = ((f t).0, pkts ++ (f t).1)

abbrev pub on_session : (Session → Session) → Transport → Step
on_session f t = (record t { session = f t.session }, [])

-- The loop of `rt_pump_recv_to_pair`; the second part is an error of `send`.
unfoldable pub pump_recv_to_pair : List (Option ℕ) → Session → Session × Bool
pump_recv_to_pair [] se = (se, false)
pump_recv_to_pair (none ∷ rs) se = (se, not (se.recv_fifo.size == 0))
pump_recv_to_pair (some w ∷ rs) se =
    let rest = pump_recv_to_pair rs (record se { recv_fifo = advance se.recv_fifo w }) in
    if (se.recv_fifo.size == 0) || (w == 0) then (se, false) else rest

-- `segment_send_fifo` has enough fuel.
abbrev pub segmented : Session → Option Session → Session
segmented se none = se
segmented se (some se') = se'

abbrev pub mark_disconnected : Transport → Step
mark_disconnected t = (
  record t { session = record t.session { status = disconnected }; result = signal t.result false },
  [],
)

module _ (sha1 : List ℕ → List ℕ) (rc4 : List ℕ → List ℕ → List ℕ) where
  -- `rt_send_segment_now` for each segment.
  unfoldable pub send_all : (ℕ → Draw) → ℕ → List Segment → Transport → Step
  send_all draws k [] t = (t, [])
  send_all draws k (s ∷ ss) t =
      let d = draws k in
      let (t', pkt) = send_segment_now sha1 rc4 d.tick d.padding d.iv s.seq s.payload t in
      let (t'', pkts) = send_all draws (k + 1) ss t' in (t'', pkt ∷ pkts)

  -- `rt_set_disconnected` when this end disconnects: five times the magic number as a segment.
  unfoldable pub set_disconnected : (ℕ → Draw) → Transport → Step
  set_disconnected draws t =
      if is_disconnected t.session.status
      then (t, [])
      else if is_connect_sent t.session.status
      then mark_disconnected t
      else followed_by (send_all draws 0 (replicate 5 (new_segment t.magic_disconnect [])) t)
          mark_disconnected

  unfoldable pub deliver : Surroundings → Transport → Step
  deliver g t =
      let (se, failed) = pump_recv_to_pair g.taken t.session in
      let t' = record t { session = se } in
      if failed then set_disconnected g.farewells t' else (t', [])

  -- The socket pair is read up to its end unless the FIFO fills up before.
  unfoldable pub ingest : Surroundings → Transport → Step
  ingest g t =
      let (se, left) = pump_pair_to_send t.session g.chunks in
      let t' = record t { session = se } in
      if g.closed && ((length left == 0) && ltb se.send_fifo.size max_fifo_size)
      then set_disconnected g.farewells t'
      else (t', [])

  unfoldable pub resend : ℕ → Surroundings → Transport → Step
  resend now g t =
      let se = t.session in
      let (kept, out) =
        resend_loop now (seq_min se.send_segments) se.current_rtt se.send_segments in
      send_all g.draws 0 out (record t { session = record se { send_segments = kept } })

  -- The loop at the end: a packet takes all acknowledgements that wait.
  unfoldable pub flush_acks : Surroundings → Transport → Step
  flush_acks g t =
      if length t.session.reply_acks == 0
      then (t, [])
      else send_all g.draws 64 (new_segment t.session.next_send_seq [] ∷ []) t

  unfoldable pub run_established : ℕ → Surroundings → Transport → Step
  run_established now g t =
      followed_by
        (followed_by
          (followed_by (followed_by (followed_by (on_session drain t) (deliver g)) (ingest g))
            (on_session λ se. keepalive now g.interval (segmented se (segment_send_fifo se))))
          (resend now g))
        (flush_acks g)

  -- The request of 39 bytes, each 200 ms.
  unfoldable pub request : ℕ → List ℕ → Surroundings → Transport → Step
  request now key_init g t =
      let se = t.session in
      let pkt = key_init ++ g.request_tail in
      if (se.last_sent_tick == 0) || leb 200 (u64 (now + 2 ^ 64 - se.last_sent_tick))
      then (
        record t {
          session = record se { last_sent_tick = now };
          next_iv = take 20 (drop (g.request_iv % 19) pkt);
        },
        pkt ∷ [],
      )
      else (t, [])

  unfoldable pub give_up : ℕ → ℕ → Surroundings → Transport → Step
  give_up now connect_timeout_ms g t =
      if leb connect_timeout_ms (u64 (now + 2 ^ 64 - t.session.created_tick))
      then set_disconnected g.farewells t
      else (t, [])

  abbrev pub interrupt_in : Status → ℕ → List ℕ → ℕ → Surroundings → Transport → Step
  interrupt_in connect_sent connect_timeout_ms key_init now g t =
      followed_by (request now key_init g t) (give_up now connect_timeout_ms g)
  interrupt_in established connect_timeout_ms key_init now g t =
      if leb (u64 (t.session.latest_recv_my_tick + 12000)) now
      then set_disconnected g.farewells t
      else run_established now g t
  interrupt_in disconnected connect_timeout_ms key_init now g t = (t, [])

  -- `rt_interrupt`
  unfoldable pub interrupt : ℕ → List ℕ → ℕ → Surroundings → Transport → Step
  interrupt connect_timeout_ms key_init now g t =
      interrupt_in t.session.status connect_timeout_ms key_init now g t
