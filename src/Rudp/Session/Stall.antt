-- ===== src/Rudp/Session/Stall.antt =====
-- The receive buffer keeps the segments in their order of arrival, and `drain` looks at the first
-- alone: a segment that overtakes its predecessor stops the delivery for good.
use softether_android_client.Base.{
  ℕ, ◌+◌, ◌≤◌, ◌<◌, ◌≡◌, ◌≢◌, ◌^◌, arith, refl, ◌∙◌, List, [], ◌∷◌, ◌++◌, ltb, leb, length, u64,
  false, Bool-cases, inl, inr, ne→==, ge→ltb,
}
use softether_android_client.Rudp.Session.{
  Session, Segment, new_segment, add_ack, contains, has_seq, process_recv_payload, drain,
  drain_loop, max_num_ack,
}

-- What the peer and the clock do to the receiving side.
pub data Event : Type 0 where
  arrive : ℕ → List ℕ → Event
  tick : Event

abbrev pub handle : Session → Event → Session
handle se (arrive seq bs) = process_recv_payload se seq bs
handle se tick = drain se

abbrev pub handle_all : Session → List Event → Session
handle_all se [] = se
handle_all se (e ∷ es) = handle_all (handle se e) es

-- The first segment kept is not the next one in order.
pub data Blocked : ℕ → List Segment → Type 0 where
  blocks :
      {complete : ℕ} (s : Segment) (ss : List Segment)
      → s.seq ≢ u64 (complete + 1)
      → Blocked complete (s ∷ ss)

abbrev pub IsStalled : Session → Type 0
IsStalled se = Blocked se.last_recv_complete_seq se.recv_segments

-- Nothing was delivered, and the buffer only grew.
pub record IsAfter (se se' : Session) : Type 0 where
  pub stalled : IsStalled se'
  pub same_fifo : se'.recv_fifo ≡ se.recv_fifo
  pub same_complete : se'.last_recv_complete_seq ≡ se.last_recv_complete_seq

Blocked-append :
    {c : ℕ} {ss : List Segment} (ts : List Segment) → Blocked c ss → Blocked c (ss ++ ts)
Blocked-append ts (blocks s ss h) = blocks s (ss ++ ts) h

add_ack-IsAfter : (se : Session) (seq : ℕ) → IsStalled se → IsAfter se (add_ack se seq)
unfolding add_ack
add_ack-IsAfter se seq b = elim (Bool-cases (contains seq se.reply_acks)) [
  | inl old ↦ rw old (record { stalled = b; same_fifo = refl; same_complete = refl })
  | inr new ↦ elim (Bool-cases (ltb (length se.reply_acks) max_num_ack)) [
    | inl room ↦ rw (new, room) (record { stalled = b; same_fifo = refl; same_complete = refl })
    | inr full ↦ rw (new, full) (record { stalled = b; same_fifo = refl; same_complete = refl })
  ]
]

same-IsAfter : (se : Session) → IsStalled se → IsAfter se se
same-IsAfter se b = record { stalled = b; same_fifo = refl; same_complete = refl }

arrive-IsAfter :
    (se : Session) (seq : ℕ) (bs : List ℕ)
    → IsStalled se
    → IsAfter se (process_recv_payload se seq bs)
unfolding process_recv_payload
arrive-IsAfter se seq bs b =
    elim (Bool-cases (ltb (u64 (se.last_recv_complete_seq + max_num_ack)) seq)) [
      | inl beyond ↦ rw beyond (same-IsAfter se b)
      | inr within ↦ elim (Bool-cases (leb seq se.last_recv_complete_seq)) [
        | inl old ↦ rw (within, old) (add_ack-IsAfter se seq b)
        | inr later ↦ elim (Bool-cases (has_seq seq se.recv_segments)) [
          | inl again ↦ rw (within, later, again) (add_ack-IsAfter se seq b)
          | inr first ↦ elim (Bool-cases (leb max_num_ack (length se.recv_segments))) [
            | inl full ↦ rw (within, later, first, full) (same-IsAfter se b)
            | inr room ↦
                rw (within, later, first, room)
                  (kept (add_ack-IsAfter _ seq (Blocked-append (new_segment seq bs ∷ []) b)))
          ]
        ]
      ]
    ]
  where
    kept :
        {se' : Session}
        → IsAfter (record se { recv_segments = se.recv_segments ++ (new_segment seq bs ∷ []) }) se'
        → IsAfter se se'
    kept a = record {
      stalled = a.stalled;
      same_fifo = a.same_fifo;
      same_complete = a.same_complete;
    }

drain_loop-Blocked :
    (se : Session) (cur : ℕ) (ss : List Segment) → Blocked cur ss → drain_loop se cur ss ≡ (se, ss)
unfolding drain_loop
drain_loop-Blocked se cur _ (blocks s ss h) = rw (ne→== _ _ h)

drain-stalled : (se : Session) → IsStalled se → drain se ≡ se
unfolding drain
drain-stalled se b = rw (drain_loop-Blocked se se.last_recv_complete_seq se.recv_segments b) refl

handle-IsAfter : (se : Session) (e : Event) → IsStalled se → IsAfter se (handle se e)
handle-IsAfter se (arrive seq bs) b = arrive-IsAfter se seq bs b
handle-IsAfter se tick b = rw (drain-stalled se b) (same-IsAfter se b)

-- From a stalled session no sequence of arrivals and ticks delivers a byte: the receive FIFO and
-- the last complete number stay what they are.
pub handle_all-stalled :
    (es : List Event) (se : Session)
    → IsStalled se
    → ((handle_all se es).recv_fifo ≡ se.recv_fifo)
      × ((handle_all se es).last_recv_complete_seq ≡ se.last_recv_complete_seq)
handle_all-stalled [] se b = (refl, refl)
handle_all-stalled (e ∷ es) se b =
    let a = handle-IsAfter se e b in
    let rest = handle_all-stalled es (handle se e) a.stalled in
    (rest.0 ∙ a.same_fifo, rest.1 ∙ a.same_complete)

overtake-IsStalled :
    (se : Session) (seq : ℕ) (bs : List ℕ)
    → se.recv_segments ≡ []
    → se.last_recv_complete_seq + max_num_ack < 2 ^ 64
    → se.last_recv_complete_seq + 1 < seq
    → seq ≤ se.last_recv_complete_seq + max_num_ack
    → IsStalled (process_recv_payload se seq bs)
      × ((process_recv_payload se seq bs).recv_fifo ≡ se.recv_fifo)
unfolding process_recv_payload
overtake-IsStalled se seq bs e small early near =
    let a =
      add_ack-IsAfter (record se { recv_segments = new_segment seq bs ∷ [] }) seq
        (blocks (new_segment seq bs) [] ahead) in
    rw (within, later, e) (a.stalled, a.same_fifo)
  where
    within : ltb (u64 (se.last_recv_complete_seq + max_num_ack)) seq ≡ false
    within = ge→ltb _ _ (omega arith)

    later : leb seq se.last_recv_complete_seq ≡ false
    later = ground arith

    ahead : seq ≢ u64 (se.last_recv_complete_seq + 1)
    ahead = omega arith

-- With nothing buffered and the numbers of the window within 64 bits, a segment inside the window that comes before its predecessor ends the
-- delivery: whatever arrives later, the missing segment included, the application gets nothing.
pub overtake_stalls :
    (se : Session) (seq : ℕ) (bs : List ℕ) (es : List Event)
    → se.recv_segments ≡ []
    → se.last_recv_complete_seq + max_num_ack < 2 ^ 64
    → se.last_recv_complete_seq + 1 < seq
    → seq ≤ se.last_recv_complete_seq + max_num_ack
    → (handle_all (handle se (arrive seq bs)) es).recv_fifo ≡ se.recv_fifo
overtake_stalls se seq bs es e small early near =
    let o = overtake-IsStalled se seq bs e small early near in
    (handle_all-stalled es (process_recv_payload se seq bs) o.0).0 ∙ o.1
