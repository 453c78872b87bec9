-- ===== src/Rudp/Session/Acks.antt =====
-- Acknowledgements, sent and received.
use softether_android_client.Base.{
  ℕ, suc, ◌≤◌, ◌<◌, ◌≡◌, inl, inr, arith, refl, List, [], ◌∷◌, ◌++◌, ltb, leb, ◌==◌, ◌||◌,
  if◌then◌else◌, length, length-append, false, Bool-cases,
}
use softether_android_client.Rudp.Session.{
  Session, Segment, remove_seq, remove_upto, process_ack, process_ack2, add_ack, contains, has_seq,
  max_num_ack,
}
use softether_android_client.Rudp.Session.Window.{Increasing, IsWindow}

remove_upto-absent :
    (max_seq seq : ℕ) (ss : List Segment)
    → has_seq seq (remove_upto max_seq ss) ≡ (if leb seq max_seq then false else has_seq seq ss)
unfolding remove_upto
remove_upto-absent m q [] = ground arith
remove_upto-absent m q (s ∷ ss) = ground (arith, remove_upto-absent m q ss)

-- A cumulative acknowledgement removes the numbers up to it and no other from the send queue.
pub process_ack2-has_seq :
    (se : Session) (max_seq seq : ℕ)
    → has_seq seq (process_ack2 se max_seq).send_segments
      ≡ (if leb seq max_seq then false else has_seq seq se.send_segments)
unfolding process_ack2
process_ack2-has_seq se m q = remove_upto-absent m q se.send_segments

Increasing-weaken :
    (lo lo' hi : ℕ) (ss : List Segment) → lo' ≤ lo → Increasing lo hi ss → Increasing lo' hi ss
Increasing-weaken lo lo' hi [] h inc = omega arith
Increasing-weaken lo lo' hi (s ∷ ss) h inc = (omega (arith, inc.0), inc.1)

above-absent :
    (lo hi seq : ℕ) (ss : List Segment) → seq < lo → Increasing lo hi ss → has_seq seq ss ≡ false
above-absent lo hi q [] h inc = refl
above-absent lo hi q (s ∷ ss) h inc =
    ground (arith, inc.0, above-absent (suc s.seq) hi q ss (omega (arith, inc.0)) inc.1)

remove_seq-absent :
    (lo hi q seq : ℕ) (ss : List Segment)
    → Increasing lo hi ss
    → has_seq seq (remove_seq q ss) ≡ (if q == seq then false else has_seq seq ss)
unfolding remove_seq
remove_seq-absent lo hi q seq [] inc = ground arith
remove_seq-absent lo hi q seq (s ∷ ss) inc = ground (
  arith,
  remove_seq-absent (suc s.seq) hi q seq ss inc.1,
  λ (e : s.seq ≡ seq). above-absent (suc s.seq) hi seq ss (omega arith) inc.1,
)

-- In an ordered send queue a selective acknowledgement removes its number and no other.
pub process_ack-has_seq :
    (se : Session) (q seq : ℕ)
    → IsWindow se
    → has_seq seq (process_ack se q).send_segments
      ≡ (if q == seq then false else has_seq seq se.send_segments)
unfolding process_ack
process_ack-has_seq se q seq w =
    remove_seq-absent 1 se.next_send_seq q seq se.send_segments w.increasing

remove_seq-Increasing :
    (lo hi q : ℕ) (ss : List Segment)
    → Increasing lo hi ss
    → Increasing lo hi (remove_seq q ss) × (length (remove_seq q ss) ≤ length ss)
unfolding remove_seq
remove_seq-Increasing lo hi q [] inc = (inc, omega arith)
remove_seq-Increasing lo hi q (s ∷ ss) inc =
    let rest = remove_seq-Increasing (suc s.seq) hi q ss inc.1 in
    elim (Bool-cases (s.seq == q)) [
      | inl this ↦
          rw this (Increasing-weaken (suc s.seq) lo hi ss (omega (arith, inc.0)) inc.1, omega arith)
      | inr not_this ↦ rw not_this ((inc.0, rest.0), omega (arith, rest.1))
    ]

remove_upto-Increasing :
    (lo hi m : ℕ) (ss : List Segment)
    → Increasing lo hi ss
    → Increasing lo hi (remove_upto m ss) × (length (remove_upto m ss) ≤ length ss)
unfolding remove_upto
remove_upto-Increasing lo hi m [] inc = (inc, omega arith)
remove_upto-Increasing lo hi m (s ∷ ss) inc =
    let rest = remove_upto-Increasing (suc s.seq) hi m ss inc.1 in
    elim (Bool-cases (leb s.seq m)) [
      | inl gone ↦ rw gone (
        Increasing-weaken (suc s.seq) lo hi (remove_upto m ss) (omega (arith, inc.0)) rest.0,
        omega (arith, rest.1),
      )
      | inr stays ↦ rw stays ((inc.0, rest.0), omega (arith, rest.1))
    ]

-- Both kinds of acknowledgement keep the send queue in order and within its 64 places.
pub process_acks-IsWindow :
    (se : Session) (seq : ℕ)
    → IsWindow se
    → IsWindow (process_ack se seq) × IsWindow (process_ack2 se seq)
unfolding process_ack process_ack2
process_acks-IsWindow se seq w =
    let one = remove_seq-Increasing 1 se.next_send_seq seq se.send_segments w.increasing in
    let many = remove_upto-Increasing 1 se.next_send_seq seq se.send_segments w.increasing in
    (
      record { increasing = one.0; bounded = omega (arith, one.1, w.bounded) },
      record { increasing = many.0; bounded = omega (arith, many.1, w.bounded) },
    )

-- No number twice.
abbrev pub AreDistinct : List ℕ → Type 0
AreDistinct [] = Unit
AreDistinct (x ∷ xs) = (contains x xs ≡ false) × AreDistinct xs

contains-snoc : (a b : ℕ) (xs : List ℕ) → contains a (xs ++ (b ∷ [])) ≡ (contains a xs || (b == a))
contains-snoc a b [] = ground arith
contains-snoc a b (x ∷ xs) = ground (arith, contains-snoc a b xs)

AreDistinct-snoc :
    (a : ℕ) (xs : List ℕ) → contains a xs ≡ false → AreDistinct xs → AreDistinct (xs ++ (a ∷ []))
AreDistinct-snoc a [] h d = (refl, tt)
AreDistinct-snoc a (x ∷ xs) h d =
    (ground (arith, contains-snoc x a xs, d.0), AreDistinct-snoc a xs (ground arith) d.1)

-- When the pending acknowledgements are distinct and at most 64, `rt_add_ack` keeps them so, and
-- the number is among them afterwards exactly if it was before or there was a place left.
pub add_ack_lem :
    (se : Session) (seq : ℕ)
    → AreDistinct se.reply_acks
    → length se.reply_acks ≤ max_num_ack
    → AreDistinct (add_ack se seq).reply_acks
      × (length (add_ack se seq).reply_acks ≤ max_num_ack)
      × (contains seq (add_ack se seq).reply_acks
          ≡ contains seq se.reply_acks || ltb (length se.reply_acks) max_num_ack)
unfolding add_ack
add_ack_lem se seq d b = elim (Bool-cases (contains seq se.reply_acks)) [
  | inl old ↦ rw old (d, b, old)
  | inr new ↦ elim (Bool-cases (ltb (length se.reply_acks) max_num_ack)) [
    | inl room ↦
        rw (new, room)
          (
            AreDistinct-snoc seq se.reply_acks new d,
            ground (arith, length-append se.reply_acks (seq ∷ [])),
            ground (arith, contains-snoc seq seq se.reply_acks),
          )
    | inr full ↦ rw (new, full) (d, b, new)
  ]
]
