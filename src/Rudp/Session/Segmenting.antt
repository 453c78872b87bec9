-- ===== src/Rudp/Session/Segmenting.antt =====
-- `rt_segment_send_fifo` moves bytes from the FIFO to the queue and loses none; the pump before it
-- may.
use softether_android_client.Base.{
  ℕ, zero, suc, ◌+◌, ◌-◌, ◌≤◌, ◌<◌, ◌≡◌, ◌≢◌, ◌^◌, ◌⊎◌, inl, inr, arith, refl, sym, ap, ◌∙◌, some,
  List, ◌++◌, append_assoc, ltb, ◌==◌, if◌then◌else◌, length, take, take-append-drop, true, false,
  Bool-cases, ==→eq, ==→ne,
}
use softether_android_client.Rudp.Fifo.{peek, advance}
use softether_android_client.Rudp.Fifo.Refine.{IsValid, contents, peek_lem, advance_lem}
use softether_android_client.Rudp.Fifo.Append.{write_lem, write_full}
use softether_android_client.Rudp.Session.{
  Session, queue_segment, window_full, segment_step, segment_loop, segment_send_fifo, pump_chunk,
  max_segment_size,
}
use softether_android_client.Rudp.Session.Window.{
  IsWindow, payloads, room_of_window, queue_segment_lem,
}

-- All bytes on their way out: those queued, then those waiting.
abbrev pub outgoing : Session → List ℕ
outgoing se = payloads se.send_segments ++ contents se.send_fifo

-- The sending side is in order, and its sequence numbers are far from the wrap.
pub record IsSending (se : Session) : Type 0 where
  pub window : IsWindow se
  pub fifo : IsValid se.send_fifo
  pub far : se.next_send_seq + se.send_fifo.size < 2 ^ 63

same_fifo : (se : Session) (bs : List ℕ) → (queue_segment se bs).send_fifo ≡ se.send_fifo
unfolding queue_segment
same_fifo se bs = ground arith

pub record Stepped (se se' : Session) : Type 0 where
  pub sending : IsSending se'
  pub same : outgoing se' ≡ outgoing se
  pub less : se'.send_fifo.size < se.send_fifo.size

segment_step-Stepped :
    (se : Session)
    → IsSending se
    → window_full se ≡ false
    → se.send_fifo.size ≢ 0
    → Stepped se (segment_step se)
unfolding segment_step
segment_step-Stepped se s open_window some_bytes =
    let n =
      if ltb max_segment_size se.send_fifo.size then max_segment_size else se.send_fifo.size in
    let small : se.next_send_seq < 2 ^ 63 = omega (arith, s.far) in
    let room = room_of_window se s.window small open_window in
    let bs = peek se.send_fifo n in
    let q = queue_segment_lem se bs s.window small room in
    let a = advance_lem se.send_fifo n s.fifo in
    rw (same_fifo se bs) (record {
      sending = record {
        window = record { increasing = q.0.increasing; bounded = q.0.bounded };
        fifo = a.0;
        far = ground (arith, q.2, s.far, size_after);
      };
      same =
          ap (λ t. t ++ contents (advance se.send_fifo n)) q.1
          ∙ append_assoc (payloads se.send_segments) bs (contents (advance se.send_fifo n))
          ∙ ap (λ t. payloads se.send_segments ++ (t ++ contents (advance se.send_fifo n)))
              (peek_lem se.send_fifo n s.fifo)
          ∙ ap (λ t. payloads se.send_segments ++ (take n (contents se.send_fifo) ++ t)) a.1
          ∙ ap (λ t. payloads se.send_segments ++ t) (take-append-drop n (contents se.send_fifo));
      less = ground (arith, size_after);
    })
  where
    m : ℕ
    m = if ltb max_segment_size se.send_fifo.size then max_segment_size else se.send_fifo.size

    size_after :
        (advance se.send_fifo m).size ≡ se.send_fifo.size - m × (0 < m) × (m ≤ se.send_fifo.size)
    size_after = unfold advance in ground arith

-- Where the loop stops.
abbrev pub IsDone : Session → Type 0
IsDone se = (window_full se ≡ true) ⊎ (se.send_fifo.size ≡ 0)

segment_loop_lem :
    (fuel : ℕ) (se : Session)
    → IsSending se
    → se.send_fifo.size < fuel
    → (se' : Session) × (segment_loop fuel se ≡ some se')
      × IsSending se'
      × (outgoing se' ≡ outgoing se)
      × IsDone se'
unfolding segment_loop
segment_loop_lem zero se s h = absurd (omega arith)
segment_loop_lem (suc fuel) se s h = elim (Bool-cases (window_full se)) [
  | inl full ↦ (se, rw (segment_loop, full) refl, s, refl, inl full)
  | inr open_window ↦ elim (Bool-cases (se.send_fifo.size == 0)) [
    | inl empty ↦ (se, rw (segment_loop, open_window, empty) refl, s, refl, inr (==→eq _ 0 empty))
    | inr more ↦
        let st = segment_step-Stepped se s open_window (==→ne _ 0 more) in
        let (se', e, s', same, done) =
          segment_loop_lem fuel (segment_step se) st.sending (omega (arith, st.less)) in
        (se', rw (segment_loop, open_window, more) e, s', same ∙ st.same, done)
  ]
]

-- On a session whose send queue is in order and whose FIFO is valid, `rt_segment_send_fifo` ends with the window full or the FIFO empty, keeps the send queue in order
-- and within its 64 places, and loses, repeats or reorders no byte.
pub segment_send_fifo_lem :
    (se : Session)
    → IsSending se
    → (se' : Session) × (segment_send_fifo se ≡ some se')
      × IsSending se'
      × (outgoing se' ≡ outgoing se)
      × IsDone se'
unfolding segment_send_fifo
segment_send_fifo_lem se s = segment_loop_lem (suc se.send_fifo.size) se s (omega arith)

-- A chunk from the application is appended whole if it fits.
pub pump_chunk_fits :
    (se : Session) (bs : List ℕ)
    → IsValid se.send_fifo
    → length bs ≤ se.send_fifo.cap - se.send_fifo.size
    → outgoing (pump_chunk se bs) ≡ outgoing se ++ bs
unfolding pump_chunk
pump_chunk_fits se bs v h =
    let (g, e, w, same, c, more) = write_lem se.send_fifo bs v h in
    let stored : pump_chunk se bs ≡ record se { send_fifo = g } = rw (pump_chunk, e) refl in
    ap (λ s. outgoing s) stored
    ∙ ap (λ t. payloads se.send_segments ++ t) same
    ∙ sym (append_assoc (payloads se.send_segments) (contents se.send_fifo) bs)

-- A chunk that was received and is longer than what is left of the FIFO is dropped whole, though
-- the FIFO does not count as full.
pub pump_chunk_lost :
    (se : Session) (bs : List ℕ)
    → se.send_fifo.cap - se.send_fifo.size < length bs
    → pump_chunk se bs ≡ se
unfolding pump_chunk
pump_chunk_lost se bs h = rw (pump_chunk, write_full se.send_fifo bs h) refl
