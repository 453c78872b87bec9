-- ===== src/Channel/Inbox/Message.antt =====
-- A message as the server sends it is read to its end and its frames are queued in order.
use softether_android_client.Base.{
  ℕ, zero, suc, ◌+◌, ◌-◌, ◌^◌, ◌≤◌, ◌<◌, ◌≡◌, refl, sym, ap, ◌∙◌, subst, arith, Option, List, [],
  ◌∷◌, ◌++◌, append_assoc, append-nil, length, length-take, take, ltb, leb, ◌==◌, ◌&&◌,
  if◌then◌else◌, ltb→lt, ltb→ge, Bool-cases, inl, inr, u32, Bool, true, false, All, ne→==,
}
use softether_android_client.Bytes.{write_u32}
use softether_android_client.Channel.Stream.{Arrival, Wire, read_all}
use softether_android_client.Channel.Stream.Flow.{IsFlowing, content, flat_read}
use softether_android_client.Channel.Inbox.{
  Inbox, Ending, and_then, read_blocks, read_message, frame_of, skipped, push, enqueue, done,
  max_block_size, max_queued_frame, queue_size, keep_alive_magic,
}
use softether_android_client.Channel.Inbox.Blocks.{
  blocks, message, read_word, step, next_block-flat,
}
use softether_android_client.Channel.Inbox.Fragments.{read_message-Alike}
use softether_android_client.Channel.Inbox.Queue.{IsRing, waiting, enqueue_lem}

-- What the queue takes from a message, when it has `room` places: the frames of the first blocks of 1
-- to 2,048 bytes.
abbrev pub keep : (List ℕ → Bool) → List (List ℕ) → List (List ℕ)
keep f [] = []
keep f (p ∷ ps) = let rest = keep f ps in if f p then p ∷ rest else rest

abbrev pub is_full : List ℕ → Bool
is_full p = ltb 0 (length p)

abbrev pub queueable : List ℕ → Bool
queueable p = is_full p && leb (length p) max_queued_frame

abbrev pub frames_of : Option (ℕ → List ℕ → Option (List ℕ)) → List (List ℕ) → List (List ℕ)
frames_of z [] = []
frames_of z (p ∷ ps) = frame_of z p ∷ frames_of z ps

-- How inbox `j` comes from `i` by a message whose blocks that are not empty are `fulls`, and those
-- of them that are at most 2,048 bytes long are `smalls`, with `room` places in the queue.
pub record Takes (z : Option (ℕ → List ℕ → Option (List ℕ))) (room : ℕ)
    (smalls fulls : List (List ℕ)) (i j : Inbox) : Type 0 where
  pub valid : IsRing j.queue
  pub queued : waiting j.queue ≡ waiting i.queue ++ frames_of z (take room smalls)
  pub counted :
      j.rx_skipped_blocks ≡ u32 (i.rx_skipped_blocks + (length fulls - length (take room smalls)))

module _ {z : Option (ℕ → List ℕ → Option (List ℕ))} {smalls fulls : List (List ℕ)}
    {i j : Inbox} where
  Takes-large :
      (room : ℕ) (p : List ℕ)
      → length (take room smalls) ≤ length fulls
      → Takes z room smalls fulls (skipped i) j
      → Takes z room smalls (p ∷ fulls) i j
  unfolding skipped
  Takes-large room p h t = record {
    valid = t.valid;
    queued = t.queued;
    counted = omega (arith, t.counted, h);
  }

  Takes-no_room :
      (room : ℕ) (p : List ℕ)
      → room ≡ 0
      → Takes z room smalls fulls (skipped i) j
      → Takes z room (p ∷ smalls) (p ∷ fulls) i j
  unfolding skipped
  Takes-no_room zero p h t = record {
    valid = t.valid;
    queued = t.queued;
    counted = omega (arith, t.counted);
  }
  Takes-no_room (suc r) p h t = absurd (omega arith)

  Takes-queued :
      (r : ℕ) (p : List ℕ)
      → IsRing i.queue
      → i.queue.count < queue_size
      → Takes z r smalls fulls (push (frame_of z p) i) j
      → Takes z (suc r) (p ∷ smalls) (p ∷ fulls) i j
  unfolding push
  Takes-queued r p v h t = record {
    valid = t.valid;
    queued =
        t.queued
        ∙ ap (λ (w : List (List ℕ)). w ++ frames_of z (take r smalls))
            (enqueue_lem i.queue (frame_of z p) v h).1
        ∙ append_assoc (waiting i.queue) (frame_of z p ∷ []) (frames_of z (take r smalls));
    counted = omega (arith, t.counted);
  }

abbrev all_steps : Option (ℕ → List ℕ → Option (List ℕ)) → List (List ℕ) → Inbox → Inbox
all_steps z [] i = i
all_steps z (p ∷ ps) i = all_steps z ps (step z p i)

keep-le :
    (n : ℕ) (ps : List (List ℕ)) → length (take n (keep queueable ps)) ≤ length (keep is_full ps)
keep-le n ps = omega (arith, length-take n (keep queueable ps), keep_le ps)
  where
    keep_le : (ps : List (List ℕ)) → length (keep queueable ps) ≤ length (keep is_full ps)
    keep_le [] = omega arith
    keep_le (p ∷ ps) =
        let rest = keep_le ps in
        elim (Bool-cases (is_full p)) [
          | inl full ↦ elim (Bool-cases (leb (length p) max_queued_frame)) [
            | inl small ↦ rw (full, small) (omega (arith, rest))
            | inr large ↦ rw (full, large) (omega (arith, rest))
          ]
          | inr empty ↦ rw empty rest
        ]

full-== : (p : List ℕ) → is_full p ≡ true → (length p == 0) ≡ false
full-== p h = ground arith

empty-== : (p : List ℕ) → is_full p ≡ false → (length p == 0) ≡ true
empty-== p h = ground arith

Takes-nil :
    (z : Option (ℕ → List ℕ → Option (List ℕ))) (i : Inbox) (room : ℕ)
    → IsRing i.queue
    → i.rx_skipped_blocks < 2 ^ 32
    → Takes z room [] [] i i
Takes-nil z i zero v h = record { valid = v; queued = sym (append-nil _); counted = omega arith }
Takes-nil z i (suc r) v h = record { valid = v; queued = sym (append-nil _); counted = omega arith }

all_steps-Takes :
    (z : Option (ℕ → List ℕ → Option (List ℕ))) (ps : List (List ℕ)) (i : Inbox) (room : ℕ)
    → IsRing i.queue
    → i.rx_skipped_blocks < 2 ^ 32
    → room ≡ queue_size - i.queue.count
    → Takes z room (keep queueable ps) (keep is_full ps) i (all_steps z ps i)
unfolding push skipped enqueue
all_steps-Takes z [] i room v h e = Takes-nil z i room v h
all_steps-Takes z (p ∷ ps) i room v h e = elim (Bool-cases (is_full p)) [
  | inl full ↦ elim (Bool-cases (leb (length p) max_queued_frame)) [
    | inl small ↦ elim (Bool-cases (ltb i.queue.count queue_size)) [
      | inl free ↦
          let below : i.queue.count < queue_size = ltb→lt _ _ free in
          let r = queue_size - (i.queue.count + 1) in
          rw (full, full-== p full, small, free)
            (subst
              (λ n.
                Takes z n (p ∷ keep queueable ps) (p ∷ keep is_full ps) i
                  (all_steps z ps (push (frame_of z p) i)))
              (omega arith)
              (Takes-queued r p v below (
                all_steps-Takes z ps (push (frame_of z p) i) r
                  (enqueue_lem i.queue (frame_of z p) v below).0 h refl)))
      | inr taken ↦
          rw (full, full-== p full, small, taken)
            (Takes-no_room room p (omega (arith, ltb→ge _ _ taken))
              (all_steps-Takes z ps (skipped i) room v (omega arith) e))
    ]
    | inr large ↦
        rw (full, full-== p full, large)
          (Takes-large room p (keep-le room ps)
            (all_steps-Takes z ps (skipped i) room v (omega arith) e))
  ]
  | inr empty ↦ rw (empty, empty-== p empty) (all_steps-Takes z ps i room v h e)
]

read_blocks-flat :
    (z : Option (ℕ → List ℕ → Option (List ℕ))) (ps : List (List ℕ)) (i : Inbox) (rest : List ℕ)
    → All (λ p. length p ≤ max_block_size) ps
    → read_blocks flat_read (length ps) z i (blocks ps ++ rest) ≡ ((done, all_steps z ps i), rest)
unfolding read_blocks blocks
read_blocks-flat z [] i rest h = refl
read_blocks-flat z (p ∷ ps) i rest h =
    rw
      (
        append_assoc (write_u32 (length p)) (p ++ blocks ps) rest,
        append_assoc p (blocks ps) rest,
        next_block-flat z p (blocks ps ++ rest) i h.0,
      )
      (read_blocks-flat z ps (step z p i) rest h.1)

read_message-flat :
    (z : Option (ℕ → List ℕ → Option (List ℕ))) (ps : List (List ℕ)) (i : Inbox) (rest : List ℕ)
    → All (λ p. length p ≤ max_block_size) ps
    → 0 < length ps
    → length ps < keep_alive_magic
    → read_message flat_read z i (message ps ++ rest) ≡ ((done, all_steps z ps i), rest)
unfolding read_message message and_then
read_message-flat z ps i rest h some_there few =
    rw
      (
        append_assoc (write_u32 (length ps)) (blocks ps) rest,
        read_word (length ps) (blocks ps ++ rest) (omega arith),
        ne→== (length ps) keep_alive_magic (omega arith),
        ne→== (length ps) 0 (omega arith),
      )
      (read_blocks-flat z ps i rest h)

-- A message of 1 to 2 ^ 32 - 2 blocks of at most 2,560,000 bytes, however the network cuts it
-- up, is read to its end and no further. Of its blocks that are not empty, those of at most 2,048
-- bytes are put behind the frames that wait, in order and unpacked where the session is compressed,
-- as many as there is room for; the others are counted as skipped. The queue stays a ring.
pub read_message-Takes :
    (w : Wire) (z : Option (ℕ → List ℕ → Option (List ℕ))) (ps : List (List ℕ)) (i : Inbox)
    (s : List Arrival) (rest : List ℕ)
    → All (λ p. length p ≤ max_block_size) ps
    → 0 < length ps
    → length ps < keep_alive_magic
    → IsRing i.queue
    → i.rx_skipped_blocks < 2 ^ 32
    → IsFlowing s
    → content s ≡ message ps ++ rest
    → ((read_message (read_all w) z i s).0.0 ≡ done)
      × Takes z
          (queue_size - i.queue.count)
          (keep queueable ps)
          (keep is_full ps)
          i
          (read_message (read_all w) z i s).0.1
      × (content (read_message (read_all w) z i s).1 ≡ rest)
read_message-Takes w z ps i s rest h some_there few v hs flow e =
    let same = read_message-Alike w z i s flow in
    let flat = ap (read_message flat_read z i) e ∙ read_message-flat z ps i rest h some_there few in
    (
      ap (λ (r : Ending × Inbox). r.0) same.0 ∙ ap (λ (r : (Ending × Inbox) × List ℕ). r.0.0) flat,
      subst (Takes z (queue_size - i.queue.count) (keep queueable ps) (keep is_full ps) i)
          (sym (
            ap (λ (r : Ending × Inbox). r.1) same.0
            ∙ ap (λ (r : (Ending × Inbox) × List ℕ). r.0.1) flat))
          (all_steps-Takes z ps i (queue_size - i.queue.count) v hs refl),
      same.2 ∙ ap (λ (r : (Ending × Inbox) × List ℕ). r.1) flat,
    )
