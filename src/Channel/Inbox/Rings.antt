-- ===== src/Channel/Inbox/Rings.antt =====
-- Whatever comes in, the receive queue stays a ring.
use softether_android_client.Base.{
  ℕ, zero, suc, ◌<◌, Option, none, some, List, ltb, ltb→lt, leb, ◌==◌, ◌&&◌, if◌then◌else◌,
  Bool-cases, and_right, inl, inr, Bool, true, false,
}
use softether_android_client.Channel.Stream.{word_of}
use softether_android_client.Channel.Inbox.{
  Inbox, Ending, is_done, and_then, skip, queue_block, skip_block, block_of_size, next_block,
  read_blocks, keepalive_payload, read_message, push, skipped, frame_of, unreadable, max_block_size,
  max_queued_frame, queue_size, keep_alive_magic,
}
use softether_android_client.Channel.Inbox.Queue.{IsRing, enqueue_lem}

-- The queue of a result is a ring.
abbrev Holds : {S : Type 0} → (Ending × Inbox) × S → Type 0
Holds r = IsRing r.0.1.queue

if-Holds :
    {S : Type 0} (b : Bool) (x y : (Ending × Inbox) × S)
    → Holds x
    → Holds y
    → Holds (if b then x else y)
if-Holds true x y p q = p
if-Holds false x y p q = q

and_then-Holds :
    {A S : Type 0} (r : Option A × S) (b : Ending × Inbox) (k : A → S → (Ending × Inbox) × S)
    → IsRing b.1.queue
    → ((a : A) (s : S) → Holds (k a s))
    → Holds (and_then r b k)
unfolding and_then
and_then-Holds (none, s) b k v h = v
and_then-Holds (some a, s) b k v h = h a s

push-IsRing :
    (i : Inbox) (bs : List ℕ)
    → IsRing i.queue
    → i.queue.count < queue_size
    → IsRing (push bs i).queue
unfolding push
push-IsRing i bs v h = (enqueue_lem i.queue bs v h).0

module _ {S : Type 0} (read : ℕ → S → Option (List ℕ) × S)
    (z : Option (ℕ → List ℕ → Option (List ℕ))) where
  skip_block-Holds : (n : ℕ) (i : Inbox) (s : S) → IsRing i.queue → Holds (skip_block read n i s)
  unfolding skip_block skipped
  skip_block-Holds n i s v = if-Holds (skip read n s).0 _ _ v v

  block_of_size-Holds :
      (n : ℕ) (i : Inbox) (s : S) → IsRing i.queue → Holds (block_of_size read z n i s)
  unfolding block_of_size queue_block
  block_of_size-Holds n i s v = if-Holds (ltb max_block_size n) _ _ v (
      if-Holds (n == 0) _ _ v
        (elim (Bool-cases (leb n max_queued_frame && ltb i.queue.count queue_size)) [
          | inl room ↦ rw room (
              and_then-Holds (read n s) (unreadable, i) _ v
                (λ bs s'.
                  push-IsRing i (frame_of z bs) v
                    (ltb→lt _ _ (and_right (leb n max_queued_frame) _ room))))
          | inr no_room ↦ rw no_room (skip_block-Holds n i s v)
        ]))

  next_block-Holds : (i : Inbox) (s : S) → IsRing i.queue → Holds (next_block read z i s)
  unfolding next_block
  next_block-Holds i s v =
      and_then-Holds (word_of (read 4 s)) (unreadable, i) _ v (λ n s'. block_of_size-Holds n i s' v)

  read_blocks-Holds :
      (k : ℕ) (i : Inbox) (s : S) → IsRing i.queue → Holds (read_blocks read k z i s)
  unfolding read_blocks
  read_blocks-Holds zero i s v = v
  read_blocks-Holds (suc k) i s v =
      let (r, s') = next_block read z i s in
      let v' = next_block-Holds i s v in
      if-Holds (is_done r.0) _ _ (read_blocks-Holds k r.1 s' v') v'

  keepalive_payload-Holds :
      (n : ℕ) (i : Inbox) (s : S) → IsRing i.queue → Holds (keepalive_payload read n i s)
  unfolding keepalive_payload
  keepalive_payload-Holds n i s v =
      and_then-Holds (read (if ltb 512 n then 512 else n) s) (unreadable, i) _ v (λ bs s'. v)

  -- Reading any message keeps the queue a ring.
  pub read_message-IsRing :
      (i : Inbox) (s : S) → IsRing i.queue → IsRing (read_message read z i s).0.1.queue
  unfolding read_message
  read_message-IsRing i s v =
      and_then-Holds (word_of (read 4 s)) (unreadable, i) _ v
        (λ count s'.
          if-Holds (count == keep_alive_magic) _ _
            (and_then-Holds (word_of (read 4 s')) (unreadable, i) _ v
              (λ n s''. keepalive_payload-Holds n i s'' v))
            (if-Holds (count == 0) _ _ v (read_blocks-Holds count i s' v)))
