-- ===== src/Rudp/Interrupt/Queues.antt =====
-- One step of `rt_interrupt` keeps the queues of the session in order.
use softether_android_client.Base.{
  if_both, ℕ, suc, ◌+◌, ◌-◌, ◌^◌, ◌≤◌, ◌<◌, ◌≡◌, refl, arith, u64, Option, none, some, List, [],
  ◌∷◌, ltb, leb, ◌==◌, ◌&&◌, ◌||◌, length, replicate, ap,
}
use softether_android_client.Rudp.Session.{
  Status, connect_sent, established, disconnected, Segment, Session, new_segment, seq_min, drain,
  pump_pair_to_send, segment_send_fifo, segment_loop, max_fifo_size,
}
use softether_android_client.Rudp.Session.Clock.{keepalive, resend_loop, resend_one}
use softether_android_client.Rudp.Session.Window.{Increasing}
use softether_android_client.Rudp.Packet.{Transport, is_disconnected, is_connect_sent}
use softether_android_client.Rudp.Packet.Authentic.{IsOrdered}
use softether_android_client.Rudp.Send.{send_segment_now}
use softether_android_client.Rudp.Session.Clock.{after_send}
use softether_android_client.Rudp.Interrupt.{
  Draw, Surroundings, Step, followed_by, pump_recv_to_pair, send_all, set_disconnected, deliver,
  ingest, segmented, resend, flush_acks, run_established, request, give_up, interrupt_in, interrupt,
  mark_disconnected, on_session,
}
use softether_android_client.Rudp.Interrupt.Holds.{
  Holds, Same-Holds, Kept, pump_recv_to_pair-Holds, pump_pair_to_send-Holds, keepalive-Holds,
  segment_loop-Kept, drain-Holds,
}

module _ (n : ℕ) (far : n + 64 < 2 ^ 63) where
  abbrev Fine : Step → Type 0
  Fine x = Holds n x.0.session

  followed_by-Fine :
      (x : Step) (f : Transport → Step)
      → Fine x
      → ((t : Transport) → Holds n t.session → Fine (f t))
      → Fine (followed_by x f)
  followed_by-Fine (t, pkts) f h k = k t h

  module _ (sha1 : List ℕ → List ℕ) (rc4 : List ℕ → List ℕ → List ℕ) where
    send_all-Fine :
        (draws : ℕ → Draw) (k : ℕ) (ss : List Segment) (t : Transport)
        → Holds n t.session
        → Fine (send_all sha1 rc4 draws k ss t)
    unfolding send_all send_segment_now after_send
    send_all-Fine draws k [] t h = h
    send_all-Fine draws k (s ∷ ss) t h = send_all-Fine draws (k + 1) ss _ (record {
      ordered = record {
        window = record {
          increasing = h.ordered.window.increasing;
          bounded = h.ordered.window.bounded;
        };
        distinct_acks = tt;
        few_acks = omega arith;
        few_received = h.ordered.few_received;
      };
      below = h.below;
    })

    -- The fields outside the queues do not matter.
    outside-Holds :
        (status : Status) (tick : ℕ) (se : Session)
        → Holds n se
        → Holds n (record se { status = status; last_sent_tick = tick })
    outside-Holds status tick se h =
        Same-Holds n se _ (record { segments = refl; next = refl; acks = refl; received = refl }) h

    set_disconnected-Fine :
        (draws : ℕ → Draw) (t : Transport)
        → Holds n t.session
        → Fine (set_disconnected sha1 rc4 draws t)
    unfolding set_disconnected
    set_disconnected-Fine draws t h = if_both Fine (is_disconnected t.session.status) _ _ h (
        if_both Fine (is_connect_sent t.session.status) _ _
          (outside-Holds disconnected t.session.last_sent_tick t.session h)
          (followed_by-Fine
            (send_all sha1 rc4 draws 0 (replicate 5 (new_segment t.magic_disconnect [])) t)
            mark_disconnected (send_all-Fine draws 0 _ t h)
            λ t' h'. outside-Holds disconnected t'.session.last_sent_tick t'.session h'))

    resend_loop-Increasing :
        (now rtt low lo hi : ℕ) (ss : List Segment)
        → Increasing lo hi ss
        → Increasing lo hi (resend_loop now low rtt ss).0
    unfolding resend_loop
    resend_loop-Increasing now rtt low lo hi [] h = h
    resend_loop-Increasing now rtt low lo hi (s ∷ ss) h =
        let rest = resend_loop-Increasing now rtt low (suc s.seq) hi ss h.1 in
        if_both {A = List Segment × List Segment} (λ x. Increasing lo hi x.0)
          (resend_one now low rtt s) _ _ (h.0, rest) (h.0, rest)

    length-resend_loop :
        (now rtt low : ℕ) (ss : List Segment) → length (resend_loop now low rtt ss).0 ≡ length ss
    unfolding resend_loop
    length-resend_loop now rtt low [] = refl
    length-resend_loop now rtt low (s ∷ ss) =
        let rest = length-resend_loop now rtt low ss in
        if_both {A = List Segment × List Segment} (λ x. length x.0 ≡ suc (length ss))
          (resend_one now low rtt s) _ _ (ap suc rest) (ap suc rest)

    resend-Fine :
        (now : ℕ) (g : Surroundings) (t : Transport)
        → Holds n t.session
        → Fine (resend sha1 rc4 now g t)
    unfolding resend
    resend-Fine now g t h =
        let se = t.session in
        let low = seq_min se.send_segments in
        let size = length-resend_loop now se.current_rtt low se.send_segments in
        send_all-Fine g.draws 0 _ _ (record {
          ordered = record {
            window = record {
              increasing =
                  resend_loop-Increasing now se.current_rtt low 1 se.next_send_seq se.send_segments
                    h.ordered.window.increasing;
              bounded = omega (arith, size, h.ordered.window.bounded);
            };
            distinct_acks = h.ordered.distinct_acks;
            few_acks = h.ordered.few_acks;
            few_received = h.ordered.few_received;
          };
          below = omega (arith, size, h.below);
        })

    deliver-Fine :
        (g : Surroundings) (t : Transport) → Holds n t.session → Fine (deliver sha1 rc4 g t)
    unfolding deliver
    deliver-Fine g t h =
        let p = pump_recv_to_pair-Holds n far g.taken t.session h in
        if_both Fine (pump_recv_to_pair g.taken t.session).1 _ _
          (set_disconnected-Fine g.farewells
            (record t { session = (pump_recv_to_pair g.taken t.session).0 }) p)
          p

    ingest-Fine :
        (g : Surroundings) (t : Transport) → Holds n t.session → Fine (ingest sha1 rc4 g t)
    unfolding ingest
    ingest-Fine g t h =
        let p = pump_pair_to_send-Holds n far g.chunks t.session h in
        let x = pump_pair_to_send t.session g.chunks in
        if_both Fine (g.closed && ((length x.1 == 0) && ltb x.0.send_fifo.size max_fifo_size)) _ _
          (set_disconnected-Fine g.farewells (record t { session = x.0 }) p) p

    segmented-Holds : (se : Session) → Holds n se → Holds n (segmented se (segment_send_fifo se))
    unfolding segment_send_fifo
    segmented-Holds se h =
        kept (segment_loop (suc se.send_fifo.size) se)
          (segment_loop-Kept n far (suc se.send_fifo.size) se h)
      where
        kept : (m : Option Session) → Kept n far m → Holds n (segmented se m)
        kept none k = h
        kept (some se') k = k

    flush_acks-Fine :
        (g : Surroundings) (t : Transport) → Holds n t.session → Fine (flush_acks sha1 rc4 g t)
    unfolding flush_acks
    flush_acks-Fine g t h =
        if_both Fine (length t.session.reply_acks == 0) _ _ h
          (send_all-Fine g.draws 64 (new_segment t.session.next_send_seq [] ∷ []) t h)

    run_established-Fine :
        (now : ℕ) (g : Surroundings) (t : Transport)
        → Holds n t.session
        → Fine (run_established sha1 rc4 now g t)
    unfolding run_established
    run_established-Fine now g t h =
        followed_by-Fine (followed_by numbered (resend sha1 rc4 now g)) (flush_acks sha1 rc4 g)
          (followed_by-Fine numbered (resend sha1 rc4 now g)
            (followed_by-Fine ingested
              (on_session λ se. keepalive now g.interval (segmented se (segment_send_fifo se)))
              ingested-Fine
              λ t h. keepalive-Holds n far now g.interval _ (segmented-Holds t.session h))
            (resend-Fine now g))
          (flush_acks-Fine g)
      where
        ingested : Step
        ingested =
            followed_by (followed_by (on_session drain t) (deliver sha1 rc4 g)) (ingest sha1 rc4 g)

        numbered : Step
        numbered =
            followed_by ingested
              (on_session λ se. keepalive now g.interval (segmented se (segment_send_fifo se)))

        ingested-Fine : Fine ingested
        ingested-Fine =
            followed_by-Fine (followed_by (on_session drain t) (deliver sha1 rc4 g))
              (ingest sha1 rc4 g)
              (followed_by-Fine (on_session drain t) (deliver sha1 rc4 g)
                (drain-Holds n far t.session h) (deliver-Fine g))
              (ingest-Fine g)

    interrupt_in-Fine :
        (s : Status) (connect_timeout_ms : ℕ) (key_init : List ℕ) (now : ℕ) (g : Surroundings)
        (t : Transport)
        → Holds n t.session
        → Fine (interrupt_in sha1 rc4 s connect_timeout_ms key_init now g t)
    unfolding request give_up
    interrupt_in-Fine connect_sent connect_timeout_ms key_init now g t h =
        followed_by-Fine (request sha1 rc4 now key_init g t)
          (give_up sha1 rc4 now connect_timeout_ms g)
          (if_both Fine
            ((t.session.last_sent_tick == 0)
              || leb 200 (u64 (now + 2 ^ 64 - t.session.last_sent_tick)))
            _ _ (outside-Holds t.session.status now t.session h) h)
          λ t' h'.
            if_both Fine (leb connect_timeout_ms (u64 (now + 2 ^ 64 - t'.session.created_tick))) _ _
              (set_disconnected-Fine g.farewells t' h') h'
    interrupt_in-Fine established connect_timeout_ms key_init now g t h =
        if_both Fine (leb (u64 (t.session.latest_recv_my_tick + 12000)) now) _ _
          (set_disconnected-Fine g.farewells t h) (run_established-Fine now g t h)
    interrupt_in-Fine disconnected connect_timeout_ms key_init now g t h = h

-- One step of `rt_interrupt`, in whatever state and with whatever its surroundings give, keeps the
-- send queue in order, no number twice among the pending acknowledgements, and every array within
-- its 64 places, as long as the sequence numbers are far from the wrap; it uses up 64 numbers at
-- most.
pub interrupt-IsOrdered :
    (sha1 : List ℕ → List ℕ) (rc4 : List ℕ → List ℕ → List ℕ) (connect_timeout_ms : ℕ)
    (key_init : List ℕ) (now : ℕ) (g : Surroundings) (t : Transport)
    → IsOrdered t.session
    → t.session.next_send_seq + 64 < 2 ^ 63
    → IsOrdered (interrupt sha1 rc4 connect_timeout_ms key_init now g t).0.session
      × ((interrupt sha1 rc4 connect_timeout_ms key_init now g t).0.session.next_send_seq
          ≤ t.session.next_send_seq + 64)
unfolding interrupt
interrupt-IsOrdered sha1 rc4 connect_timeout_ms key_init now g t o far =
    let n = t.session.next_send_seq in
    let held =
      interrupt_in-Fine n far sha1 rc4 t.session.status connect_timeout_ms key_init now g t
        (record { ordered = o; below = omega arith }) in
    (held.ordered, omega (arith, held.below, held.ordered.window.bounded))
