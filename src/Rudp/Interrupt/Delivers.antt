-- ===== src/Rudp/Interrupt/Delivers.antt =====
-- What one step of `rt_interrupt` does with segments that arrived in order.
use softether_android_client.Base.{
  if_both, ℕ, zero, suc, ◌+◌, ◌-◌, ◌^◌, ◌≤◌, ◌<◌, ◌≡◌, refl, sym, ap, ◌∙◌, arith, u64, Option, none,
  some, List, [], ◌∷◌, ◌++◌, ltb, leb, ◌==◌, ◌&&◌, ◌||◌, if◌then◌else◌, length, replicate, drop,
  drop-drop, Bool, true, false, inl, inr, Option-cases,
}
use softether_android_client.Rudp.Fifo.{Fifo, advance, write, peek}
use softether_android_client.Rudp.Fifo.Refine.{contents, advance_lem}
use softether_android_client.Rudp.Fifo.Refine
use softether_android_client.Rudp.Session.{
  established, Segment, Session, new_segment, drain, pump_pair_to_send, pump_chunk,
  segment_send_fifo, segment_loop, segment_step, window_full, max_fifo_size, queue_segment,
}
use softether_android_client.Rudp.Session.Clock.{keepalive, after_send}
use softether_android_client.Rudp.Session.Window.{payloads}
use softether_android_client.Rudp.Session.Delivery.{InOrder, drain-Delivers}
use softether_android_client.Rudp.Packet.{Transport, is_disconnected, is_connect_sent}
use softether_android_client.Rudp.Send.{send_segment_now}
use softether_android_client.Rudp.Interrupt.{
  Draw, Surroundings, Step, followed_by, pump_recv_to_pair, send_all, set_disconnected, deliver,
  ingest, segmented, resend, flush_acks, run_established, interrupt, mark_disconnected, on_session,
}

-- The receiving side of a session.
abbrev received : Session → Fifo × (List Segment × ℕ)
received se = (se.recv_fifo, (se.recv_segments, se.last_recv_complete_seq))

queue_segment-received : (se : Session) (bs : List ℕ) → received (queue_segment se bs) ≡ received se
unfolding queue_segment
queue_segment-received se bs =
    if_both (λ s. received s ≡ received se) (leb 64 (length se.send_segments)) _ _ refl refl

pump_pair_to_send-received :
    (bss : List (List ℕ)) (se : Session) → received (pump_pair_to_send se bss).0 ≡ received se
unfolding pump_pair_to_send pump_chunk
pump_pair_to_send-received [] se = refl
pump_pair_to_send-received (bs ∷ bss) se =
    if_both {A = Session × List (List ℕ)} (λ x. received x.0 ≡ received se)
      (leb max_fifo_size se.send_fifo.size) (se, bs ∷ bss) _ refl
      (pump_pair_to_send-received bss (pump_chunk se bs) ∙ written)
  where
    written : received (pump_chunk se bs) ≡ received se
    written = elim (Option-cases (write se.send_fifo bs)) [
      | inl e ↦ rw (e, pump_chunk) refl
      | inr (f, e) ↦ rw (e, pump_chunk) refl
    ]

-- All of the session's receiving side, in what the loop leaves.
abbrev Left : Session → Option Session → Type 0
Left se none = Unit
Left se (some se') = received se' ≡ received se

stop_or {ℓ κ} :
    {A : Type ℓ} (P : A → Type κ) (b : Bool) (x y : A)
    → P x
    → P y
    → P (elim b [ true ↦ x | false ↦ y ])
stop_or P true x y p q = p
stop_or P false x y p q = q

segment_loop-received :
    (fuel : ℕ) (se se' : Session) → received se' ≡ received se → Left se (segment_loop fuel se')
unfolding segment_loop segment_step
segment_loop-received zero se se' h = tt
segment_loop-received (suc fuel) se se' h =
    let k = if ltb 512 se'.send_fifo.size then 512 else se'.send_fifo.size in
    stop_or (Left se) (window_full se' || (se'.send_fifo.size == 0)) (some se') _ h (
      segment_loop-received fuel se (segment_step se')
        (queue_segment-received se' (peek se'.send_fifo k) ∙ h))

segmented-received : (se : Session) → received (segmented se (segment_send_fifo se)) ≡ received se
unfolding segment_send_fifo
segmented-received se =
    kept (segment_loop (suc se.send_fifo.size) se)
      (segment_loop-received (suc se.send_fifo.size) se se refl)
  where
    kept : (m : Option Session) → Left se m → received (segmented se m) ≡ received se
    kept none k = refl
    kept (some se') k = k

keepalive-received : (now r : ℕ) (se : Session) → received (keepalive now r se) ≡ received se
unfolding keepalive
keepalive-received now r se =
    if_both (λ s. received s ≡ received se)
      ((se.last_sent_tick == 0) || leb (u64 (se.last_sent_tick + se.next_keepalive_interval)) now) _
      _
      (if_both (λ s. received s ≡ received se) (length se.send_segments == 0) _ _
        (queue_segment-received se se.magic_req) refl)
      refl

-- How many bytes the socket pair takes at most.
abbrev pub taken_by : List (Option ℕ) → ℕ
taken_by [] = 0
taken_by (none ∷ rs) = taken_by rs
taken_by (some w ∷ rs) = w + taken_by rs

-- The FIFO after `n` of its bytes, which are the oldest, went out.
record Taken (bound : ℕ) (se se' : Session) : Type 0 where
  number : ℕ
  few : number ≤ bound
  fifo : Refine.IsValid se'.recv_fifo
  left : contents se'.recv_fifo ≡ drop number (contents se.recv_fifo)
  segments : se'.recv_segments ≡ se.recv_segments
  last : se'.last_recv_complete_seq ≡ se.last_recv_complete_seq

Taken-weaken : (b b' : ℕ) (se se' : Session) → b ≤ b' → Taken b se se' → Taken b' se se'
Taken-weaken b b' se se' h k = record {
  number = k.number;
  few = omega (arith, k.few);
  fifo = k.fifo;
  left = k.left;
  segments = k.segments;
  last = k.last;
}

none_taken : (b : ℕ) (se : Session) → Refine.IsValid se.recv_fifo → Taken b se se
none_taken b se v = record {
  number = 0;
  few = omega arith;
  fifo = v;
  left = refl;
  segments = refl;
  last = refl;
}

pump_recv_to_pair-Taken :
    (rs : List (Option ℕ)) (se : Session)
    → Refine.IsValid se.recv_fifo
    → Taken (taken_by rs) se (pump_recv_to_pair rs se).0
unfolding pump_recv_to_pair
pump_recv_to_pair-Taken [] se v = none_taken 0 se v
pump_recv_to_pair-Taken (none ∷ rs) se v = none_taken (taken_by rs) se v
pump_recv_to_pair-Taken (some w ∷ rs) se v =
    let a = advance_lem se.recv_fifo w v in
    let se' = record se { recv_fifo = advance se.recv_fifo w } in
    let rest = pump_recv_to_pair-Taken rs se' a.0 in
    if_both {A = Session × Bool} (λ x. Taken (w + taken_by rs) se x.0)
      ((se.recv_fifo.size == 0) || (w == 0)) (se, false) (pump_recv_to_pair rs se')
      (none_taken (w + taken_by rs) se v)
      (record {
        number = w + rest.number;
        few = omega (arith, rest.few);
        fifo = rest.fifo;
        left =
            rest.left
            ∙ ap (drop rest.number) a.1
            ∙ sym (drop-drop (w + rest.number) w rest.number (contents se.recv_fifo) refl);
        segments = rest.segments;
        last = rest.last;
      })

module _ (r : Fifo × (List Segment × ℕ)) where
  -- A step whose session has that receiving side.
  abbrev Keeps : Step → Type 0
  Keeps x = received x.0.session ≡ r

  followed_by-Keeps :
      (x : Step) (f : Transport → Step)
      → Keeps x
      → ((t : Transport) → received t.session ≡ r → Keeps (f t))
      → Keeps (followed_by x f)
  followed_by-Keeps (t, pkts) f h k = k t h

  module _ (sha1 : List ℕ → List ℕ) (rc4 : List ℕ → List ℕ → List ℕ) where
    send_all-Keeps :
        (draws : ℕ → Draw) (k : ℕ) (ss : List Segment) (t : Transport)
        → received t.session ≡ r
        → Keeps (send_all sha1 rc4 draws k ss t)
    unfolding send_all send_segment_now after_send
    send_all-Keeps draws k [] t h = h
    send_all-Keeps draws k (s ∷ ss) t h = send_all-Keeps draws (k + 1) ss _ h

    set_disconnected-Keeps :
        (draws : ℕ → Draw) (t : Transport)
        → received t.session ≡ r
        → Keeps (set_disconnected sha1 rc4 draws t)
    unfolding set_disconnected
    set_disconnected-Keeps draws t h = if_both Keeps (is_disconnected t.session.status) _ _ h (
        if_both Keeps (is_connect_sent t.session.status) _ _ h (
          followed_by-Keeps
            (send_all sha1 rc4 draws 0 (replicate 5 (new_segment t.magic_disconnect [])) t)
            mark_disconnected (send_all-Keeps draws 0 _ t h) λ t' h'. h'))

    ingest-Keeps :
        (g : Surroundings) (t : Transport) → received t.session ≡ r → Keeps (ingest sha1 rc4 g t)
    unfolding ingest
    ingest-Keeps g t h =
        let x = pump_pair_to_send t.session g.chunks in
        let p = pump_pair_to_send-received g.chunks t.session ∙ h in
        if_both Keeps (g.closed && ((length x.1 == 0) && ltb x.0.send_fifo.size max_fifo_size)) _ _
          (set_disconnected-Keeps g.farewells (record t { session = x.0 }) p) p

    resend-Keeps :
        (now : ℕ) (g : Surroundings) (t : Transport)
        → received t.session ≡ r
        → Keeps (resend sha1 rc4 now g t)
    unfolding resend
    resend-Keeps now g t h = send_all-Keeps g.draws 0 _ _ h

    flush_acks-Keeps :
        (g : Surroundings) (t : Transport)
        → received t.session ≡ r
        → Keeps (flush_acks sha1 rc4 g t)
    unfolding flush_acks
    flush_acks-Keeps g t h =
        if_both Keeps (length t.session.reply_acks == 0) _ _ h
          (send_all-Keeps g.draws 64 (new_segment t.session.next_send_seq [] ∷ []) t h)

    -- What comes behind the delivery.
    after_deliver-Keeps :
        (now : ℕ) (g : Surroundings) (x : Step)
        → Keeps x
        → Keeps (
            followed_by
              (followed_by
                (followed_by
                  (followed_by x (ingest sha1 rc4 g))
                  (on_session λ se. keepalive now g.interval (segmented se (segment_send_fifo se))))
                (resend sha1 rc4 now g))
              (flush_acks sha1 rc4 g))
    after_deliver-Keeps now g x h =
        let queued : Transport → Step =
          on_session λ se. keepalive now g.interval (segmented se (segment_send_fifo se)) in
        let numbered = followed_by (followed_by x (ingest sha1 rc4 g)) queued in
        followed_by-Keeps (followed_by numbered (resend sha1 rc4 now g)) (flush_acks sha1 rc4 g)
          (followed_by-Keeps numbered (resend sha1 rc4 now g)
            (followed_by-Keeps (followed_by x (ingest sha1 rc4 g)) queued
              (followed_by-Keeps x (ingest sha1 rc4 g) h (ingest-Keeps g))
              λ t k.
                keepalive-received now g.interval
                  (segmented t.session (segment_send_fifo t.session))
                ∙ segmented-received t.session
                ∙ k)
            (resend-Keeps now g))
          (flush_acks-Keeps g)

module _ (sha1 : List ℕ → List ℕ) (rc4 : List ℕ → List ℕ → List ℕ) where
  deliver-received :
      (g : Surroundings) (t : Transport)
      → received (deliver sha1 rc4 g t).0.session ≡ received (pump_recv_to_pair g.taken t.session).0
  unfolding deliver
  deliver-received g t =
      let p = pump_recv_to_pair g.taken t.session in
      if_both (Keeps (received p.0)) p.1 _ _
        (set_disconnected-Keeps (received p.0) sha1 rc4 g.farewells (record t { session = p.0 })
          refl)
        refl

  run_established-received :
      (now : ℕ) (g : Surroundings) (t : Transport)
      → received (run_established sha1 rc4 now g t).0.session
        ≡ received (pump_recv_to_pair g.taken (drain t.session)).0
  unfolding run_established
  run_established-received now g t =
      after_deliver-Keeps (received (pump_recv_to_pair g.taken (drain t.session)).0) sha1 rc4 now g
        (followed_by (on_session drain t) (deliver sha1 rc4 g))
        (deliver-received g (record t { session = drain t.session }))

  interrupt_established :
      (connect_timeout_ms : ℕ) (key_init : List ℕ) (now : ℕ) (g : Surroundings) (t : Transport)
      → t.session.status ≡ established
      → now < u64 (t.session.latest_recv_my_tick + 12000)
      → interrupt sha1 rc4 connect_timeout_ms key_init now g t ≡ run_established sha1 rc4 now g t
  unfolding interrupt
  interrupt_established connect_timeout_ms key_init now g t e alive =
      let on : leb (u64 (t.session.latest_recv_my_tick + 12000)) now ≡ false =
        ground (arith, alive) in
      rw (e, on) refl

-- One `rt_interrupt` of an established session that has not timed out, whose reorder buffer holds
-- segments in order with application data, numbered below 2 ^ 64, and whose FIFO has room for all of
-- it: the buffer is empty
-- after it, the last complete number is that of the last of them, and what waits in the FIFO is what
-- waited before and their bytes in order, less the oldest bytes of it, which went to the application,
-- at most as many as the socket pair took. That holds whatever else its surroundings give, also when
-- the application has closed the pair.
pub interrupt-Delivers :
    (sha1 : List ℕ → List ℕ) (rc4 : List ℕ → List ℕ → List ℕ) (connect_timeout_ms : ℕ)
    (key_init : List ℕ) (now : ℕ) (g : Surroundings) (t : Transport)
    → t.session.status ≡ established
    → now < u64 (t.session.latest_recv_my_tick + 12000)
    → Refine.IsValid t.session.recv_fifo
    → t.session.last_recv_complete_seq + length t.session.recv_segments < 2 ^ 64
    → InOrder t.session.magic_req t.session.magic_resp
        (suc t.session.last_recv_complete_seq)
        t.session.recv_segments
    → length (payloads t.session.recv_segments) ≤ t.session.recv_fifo.cap - t.session.recv_fifo.size
    → let se = (interrupt sha1 rc4 connect_timeout_ms key_init now g t).0.session in
      (n : ℕ) × (contents se.recv_fifo
        ≡ drop n (contents t.session.recv_fifo ++ payloads t.session.recv_segments))
      × (n ≤ taken_by g.taken)
      × (se.recv_segments ≡ [])
      × (se.last_recv_complete_seq
          ≡ t.session.last_recv_complete_seq + length t.session.recv_segments)
interrupt-Delivers sha1 rc4 connect_timeout_ms key_init now g t e alive v far o room =
    let (d, empty) = drain-Delivers t.session v far o room in
    let k = pump_recv_to_pair-Taken g.taken (drain t.session) d.fifo in
    let same =
      ap (λ (x : Step). received x.0.session)
        (interrupt_established sha1 rc4 connect_timeout_ms key_init now g t e alive)
      ∙ run_established-received sha1 rc4 now g t in
    (
      k.number,
      ap (λ (r : Fifo × (List Segment × ℕ)). contents r.0) same
          ∙ k.left
          ∙ ap (drop k.number) d.delivered,
      k.few,
      ap (λ (r : Fifo × (List Segment × ℕ)). r.1.0) same ∙ k.segments ∙ empty,
      ap (λ (r : Fifo × (List Segment × ℕ)). r.1.1) same ∙ k.last ∙ d.complete,
    )
