-- ===== src/Rudp/Session/Window.antt =====
-- The send queue: its numbers increase, so the window test bounds its length.
use softether_android_client.Base.{
  ℕ, suc, ◌+◌, ◌-◌, ◌≤◌, ◌<◌, ◌≡◌, ◌^◌, arith, refl, sym, ap, ◌∙◌, List, [], ◌∷◌, ◌++◌, append-nil,
  append_assoc, ltb, leb, ◌==◌, ◌&&◌, not, length, length-append, u64, false,
}
use softether_android_client.Rudp.Session.{
  Session, Segment, new_segment, queue_segment, window_full, seq_min, max_num_ack,
}

-- The numbers of the segments increase from `lo` on and stay below `hi`.
abbrev pub Increasing : ℕ → ℕ → List Segment → Type 0
Increasing lo hi [] = lo ≤ hi
Increasing lo hi (s ∷ ss) = (lo ≤ s.seq) × Increasing (suc s.seq) hi ss

-- The bytes of the queue, in order.
abbrev pub payloads : List Segment → List ℕ
payloads [] = []
payloads (s ∷ ss) = s.payload ++ payloads ss

pub payloads-append : (ss ts : List Segment) → payloads (ss ++ ts) ≡ payloads ss ++ payloads ts
payloads-append [] ts = refl
payloads-append (s ∷ ss) ts =
    ap (λ t. s.payload ++ t) (payloads-append ss ts)
    ∙ sym (append_assoc s.payload (payloads ss) (payloads ts))

length-Increasing : (lo hi : ℕ) (ss : List Segment) → Increasing lo hi ss → lo + length ss ≤ hi
length-Increasing lo hi [] h = omega arith
length-Increasing lo hi (s ∷ ss) h = omega (arith, length-Increasing (suc s.seq) hi ss h.1)

Increasing-snoc :
    (lo hi : ℕ) (ss : List Segment) (bs : List ℕ)
    → Increasing lo hi ss
    → Increasing lo (suc hi) (ss ++ (new_segment hi bs ∷ []))
Increasing-snoc lo hi [] bs h = omega arith
Increasing-snoc lo hi (s ∷ ss) bs h = (h.0, Increasing-snoc (suc s.seq) hi ss bs h.1)

pub record IsWindow (se : Session) : Type 0 where
  pub increasing : Increasing 1 se.next_send_seq se.send_segments
  pub bounded : length se.send_segments ≤ max_num_ack

-- Where the window is not full there is a place in the queue.
pub room_of_window :
    (se : Session)
    → IsWindow se
    → se.next_send_seq < 2 ^ 63
    → window_full se ≡ false
    → length se.send_segments < max_num_ack
room_of_window se w small h = go se.send_segments w.increasing h
  where
    go :
        (ss : List Segment)
        → Increasing 1 se.next_send_seq ss
        → (not (seq_min ss == 0) && ltb (u64 (seq_min ss + max_num_ack - 1)) se.next_send_seq)
          ≡ false
        → length ss < max_num_ack
    go [] inc h = omega arith
    go (s ∷ ss) inc h =
        ground (arith, length-Increasing (suc s.seq) se.next_send_seq ss, inc.0, inc.1)

-- With a place left a segment is appended, and the window stays in order.
pub queue_segment_lem :
    (se : Session) (bs : List ℕ)
    → IsWindow se
    → se.next_send_seq < 2 ^ 63
    → length se.send_segments < max_num_ack
    → IsWindow (queue_segment se bs)
      × (payloads (queue_segment se bs).send_segments ≡ payloads se.send_segments ++ bs)
      × ((queue_segment se bs).next_send_seq ≡ se.next_send_seq + 1)
unfolding queue_segment
queue_segment_lem se bs w small room =
    let open_place : leb max_num_ack (length se.send_segments) ≡ false = ground arith in
    let next : u64 (se.next_send_seq + 1) ≡ suc se.next_send_seq = omega arith in
    rw open_place (
      record {
        increasing = rw next (Increasing-snoc 1 se.next_send_seq se.send_segments bs w.increasing);
        bounded =
            omega (arith, length-append se.send_segments (new_segment se.next_send_seq bs ∷ []));
      },
      payloads-append se.send_segments (new_segment se.next_send_seq bs ∷ [])
          ∙ ap (λ t. payloads se.send_segments ++ t) (append-nil bs),
      omega arith,
    )
