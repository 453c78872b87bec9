-- ===== src/Rudp/Interrupt/Holds.antt =====
-- What the parts of `rt_interrupt` that only change the session keep of its queues.
use softether_android_client.Base.{
  if_both, ℕ, zero, suc, ◌+◌, ◌^◌, ◌≤◌, ◌<◌, ◌≡◌, refl, arith, u64, Option, none, some, List, [],
  ◌∷◌, ltb, leb, ◌==◌, ◌||◌, if◌then◌else◌, length, Bool, true, false, Bool-cases, inl, inr,
  length-append, Option-cases, subst,
}
use softether_android_client.Rudp.Fifo.{advance, write, peek}
use softether_android_client.Rudp.Session.{
  Segment, Session, new_segment, drain, drain_loop, accept_segment, is_magic, pump_pair_to_send,
  pump_chunk, window_full, segment_loop, segment_step, max_fifo_size, queue_segment,
}
use softether_android_client.Rudp.Session.Clock.{keepalive}
use softether_android_client.Rudp.Session.Window.{queue_segment_lem}
use softether_android_client.Rudp.Packet.Authentic.{IsOrdered}
use softether_android_client.Rudp.Interrupt.{pump_recv_to_pair}

-- The session is in order, and no more than the queued segments were numbered above `n`.
pub record Holds (n : ℕ) (se : Session) : Type 0 where
  pub ordered : IsOrdered se
  pub below : se.next_send_seq ≤ n + length se.send_segments

-- What `IsOrdered` reads is the same.
pub record Same (se se' : Session) : Type 0 where
  pub segments : se'.send_segments ≡ se.send_segments
  pub next : se'.next_send_seq ≡ se.next_send_seq
  pub acks : se'.reply_acks ≡ se.reply_acks
  pub received : se'.recv_segments ≡ se.recv_segments

pub Same-Holds : (n : ℕ) (se se' : Session) → Same se se' → Holds n se → Holds n se'
Same-Holds n se se' s h = record {
  ordered = record {
    window = record {
      increasing = rw (s.next, s.segments) h.ordered.window.increasing;
      bounded = rw s.segments h.ordered.window.bounded;
    };
    distinct_acks = rw s.acks h.ordered.distinct_acks;
    few_acks = rw s.acks h.ordered.few_acks;
    few_received = rw s.received h.ordered.few_received;
  };
  below = rw (s.next, s.segments) h.below;
}

stop_or {ℓ κ} :
    {A : Type ℓ} (P : A → Type κ) (b : Bool) (x y : A)
    → P x
    → P y
    → P (elim b [ true ↦ x | false ↦ y ])
stop_or P true x y p q = p
stop_or P false x y p q = q

module _ (n : ℕ) (far : n + 64 < 2 ^ 63) where
  queue_segment-Holds : (se : Session) (bs : List ℕ) → Holds n se → Holds n (queue_segment se bs)
  queue_segment-Holds se bs h = elim (Bool-cases (leb 64 (length se.send_segments))) [
    | inl full ↦ unfold queue_segment in rw full h
    | inr room ↦
        let q =
          queue_segment_lem se bs h.ordered.window
            (omega (arith, h.below, h.ordered.window.bounded)) (ground arith) in
        record {
          ordered = record {
            window = q.0;
            distinct_acks = unfold queue_segment in rw room h.ordered.distinct_acks;
            few_acks = unfold queue_segment in rw room h.ordered.few_acks;
            few_received = unfold queue_segment in rw room h.ordered.few_received;
          };
          below = omega (arith, q.2, h.below, longer room);
        }
  ]
    where
      longer :
          leb 64 (length se.send_segments) ≡ false
          → length (queue_segment se bs).send_segments ≡ length se.send_segments + 1
      longer room =
          unfold queue_segment in
          rw room (length-append se.send_segments (new_segment se.next_send_seq bs ∷ []))

  abbrev pub Kept : Option Session → Type 0
  Kept none = Unit
  Kept (some se) = Holds n se

  -- What a segment that is next in order leaves.
  accept_segment-Kept : (se : Session) (s : Segment) → Holds n se → Kept (accept_segment se s)
  unfolding accept_segment
  accept_segment-Kept se s h =
      if_both Kept (is_magic s.payload se.magic_req) _ _
        (if_both (Holds n) (length se.send_segments == 0) _ _
          (queue_segment-Holds se se.magic_resp h) h)
        (if_both Kept (is_magic s.payload se.magic_resp) _ _ h written)
    where
      written : Kept (elim (write se.recv_fifo s.payload) [
        | none ↦ none
        | some f ↦ some (record se { recv_fifo = f })
      ])
      written = elim (Option-cases (write se.recv_fifo s.payload)) [
        | inl e ↦ rw e tt
        | inr (f, e) ↦ rw e (
            Same-Holds n se (record se { recv_fifo = f })
              (record { segments = refl; next = refl; acks = refl; received = refl }) h)
      ]

  abbrev Drained : ℕ → Session × List Segment → Type 0
  Drained k x = Holds n x.0 × (length x.1 ≤ k)

  drain_loop-Holds :
      (ss : List Segment) (se : Session) (cur : ℕ)
      → Holds n se
      → Holds n (drain_loop se cur ss).0 × (length (drain_loop se cur ss).1 ≤ length ss)
  unfolding drain_loop
  drain_loop-Holds [] se cur h = (h, omega arith)
  drain_loop-Holds (s ∷ ss) se cur h =
      if_both (Drained (suc (length ss))) (s.seq == u64 (cur + 1)) _ _
        (taken λ se' h'.
          drain_loop-Holds ss (record se' { last_recv_complete_seq = s.seq }) (u64 (cur + 1))
            (Same-Holds n se' _
              (record { segments = refl; next = refl; acks = refl; received = refl }) h'))
        (h, omega arith)
    where
      taken :
          ((se' : Session)
            → Holds n se'
            → Holds n
                (drain_loop (record se' { last_recv_complete_seq = s.seq }) (u64 (cur + 1)) ss).0
              × (length
                    (drain_loop
                      (record se' { last_recv_complete_seq = s.seq })
                      (u64 (cur + 1))
                      ss).1
                  ≤ length ss))
          → Drained (suc (length ss)) (elim (accept_segment se s) [
            | none ↦ (se, s ∷ ss)
            | some se' ↦
                drain_loop (record se' { last_recv_complete_seq = s.seq }) (u64 (cur + 1)) ss
          ])
      taken rest = elim (Option-cases (accept_segment se s)) [
        | inl e ↦ rw e (h, omega arith)
        | inr (se', e) ↦
            let r = rest se' (subst Kept e (accept_segment-Kept se s h)) in
            rw e (r.0, omega (arith, r.1))
      ]

  pub drain-Holds : (se : Session) → Holds n se → Holds n (drain se)
  unfolding drain
  drain-Holds se h =
      let d = drain_loop-Holds se.recv_segments se se.last_recv_complete_seq h in
      record {
        ordered = record {
          window = record {
            increasing = d.0.ordered.window.increasing;
            bounded = d.0.ordered.window.bounded;
          };
          distinct_acks = d.0.ordered.distinct_acks;
          few_acks = d.0.ordered.few_acks;
          few_received = omega (arith, d.1, h.ordered.few_received);
        };
        below = d.0.below;
      }

  segment_step-Holds : (se : Session) → Holds n se → Holds n (segment_step se)
  unfolding segment_step
  segment_step-Holds se h =
      let k = if ltb 512 se.send_fifo.size then 512 else se.send_fifo.size in
      Same-Holds n (queue_segment se (peek se.send_fifo k)) _
        (record { segments = refl; next = refl; acks = refl; received = refl })
        (queue_segment-Holds se (peek se.send_fifo k) h)

  pub segment_loop-Kept : (fuel : ℕ) (se : Session) → Holds n se → Kept (segment_loop fuel se)
  unfolding segment_loop
  segment_loop-Kept zero se h = tt
  segment_loop-Kept (suc fuel) se h =
      stop_or Kept (window_full se || (se.send_fifo.size == 0)) (some se) _ h
        (segment_loop-Kept fuel (segment_step se) (segment_step-Holds se h))

  pub keepalive-Holds : (now r : ℕ) (se : Session) → Holds n se → Holds n (keepalive now r se)
  unfolding keepalive
  keepalive-Holds now r se h =
      if_both (Holds n)
        ((se.last_sent_tick == 0) || leb (u64 (se.last_sent_tick + se.next_keepalive_interval)) now)
        _ _
        (Same-Holds n (if length se.send_segments == 0 then queue_segment se se.magic_req else se) _
          (record { segments = refl; next = refl; acks = refl; received = refl })
          (if_both (Holds n) (length se.send_segments == 0) _ _
            (queue_segment-Holds se se.magic_req h) h))
        h

  pub pump_pair_to_send-Holds :
      (bss : List (List ℕ)) (se : Session) → Holds n se → Holds n (pump_pair_to_send se bss).0
  unfolding pump_pair_to_send pump_chunk
  pump_pair_to_send-Holds [] se h = h
  pump_pair_to_send-Holds (bs ∷ bss) se h =
      if_both {A = Session × List (List ℕ)} (λ x. Holds n x.0) (leb max_fifo_size se.send_fifo.size)
        (se, bs ∷ bss) _ h (pump_pair_to_send-Holds bss (pump_chunk se bs) written)
    where
      written : Holds n (pump_chunk se bs)
      written = elim (Option-cases (write se.send_fifo bs)) [
        | inl e ↦ rw (e, pump_chunk) h
        | inr (f, e) ↦
            rw (e, pump_chunk)
              (Same-Holds n se (record se { send_fifo = f })
                (record { segments = refl; next = refl; acks = refl; received = refl }) h)
      ]

  pub pump_recv_to_pair-Holds :
      (rs : List (Option ℕ)) (se : Session) → Holds n se → Holds n (pump_recv_to_pair rs se).0
  unfolding pump_recv_to_pair
  pump_recv_to_pair-Holds [] se h = h
  pump_recv_to_pair-Holds (none ∷ rs) se h = h
  pump_recv_to_pair-Holds (some w ∷ rs) se h =
      if_both {A = Session × Bool} (λ x. Holds n x.0) ((se.recv_fifo.size == 0) || (w == 0))
        (se, false) _ h
        (pump_recv_to_pair-Holds rs (record se { recv_fifo = advance se.recv_fifo w })
          (Same-Holds n se _ (record { segments = refl; next = refl; acks = refl; received = refl })
            h))
