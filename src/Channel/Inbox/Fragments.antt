-- ===== src/Channel/Inbox/Fragments.antt =====
-- Reading a message does not depend on how the network cuts it up.
use softether_android_client.Base.{
  ℕ, zero, suc, ◌-◌, ◌≡◌, refl, sym, ap, ap₂, subst, ◌∙◌, Option, none, some, List, ltb, leb, ◌==◌,
  ◌&&◌, if◌then◌else◌, Bool, true, false,
}
use softether_android_client.Channel.Stream.{Arrival, Wire, read_all, word, word_of}
use softether_android_client.Channel.Stream.Flow.{
  IsFlowing, content, flat_read, Same, read_all-Same,
}
use softether_android_client.Channel.Inbox.{
  Inbox, Ending, is_done, and_then, skip_loop, skip, queue_block, skip_block, block_of_size,
  next_block, skipped, done, read_blocks, keepalive_payload, read_message, max_block_size,
  max_queued_frame, queue_size, keep_alive_magic, unreadable,
}

-- Two ways to go on from the same bytes.
abbrev pub Alike : {X : Type 0} → (List Arrival → X × List Arrival) → (List ℕ → X × List ℕ) → Type 0
Alike k j = (s : List Arrival) → IsFlowing s → Same (k s) (j (content s))

abbrev value : {A : Type 0} → A → Option A → A
value d none = d
value d (some a) = a

pub Same-and_then :
    {A B : Type 0} (r : Option A × List Arrival) (f : Option A × List ℕ) (b : B)
    (k : A → List Arrival → B × List Arrival) (j : A → List ℕ → B × List ℕ)
    → Same r f
    → ((a : A) → Alike (k a) (j a))
    → Same (and_then r b k) (and_then f b j)
unfolding and_then
Same-and_then (none, s) (none, cs) b k j h g = (refl, h.1, h.2)
Same-and_then (none, s) (some y, cs) b k j h g = absurd (cc h.0)
Same-and_then (some x, s) (none, cs) b k j h g = absurd (cc h.0)
Same-and_then {A} (some x, s) (some y, cs) b k j h g =
    subst (λ (t : A × List ℕ). Same (k x s) (j t.0 t.1))
      (ap₂ (λ (a : A) (c : List ℕ). (a, c)) (ap (value x) h.0) h.2) (g x s h.1)

-- Going on with a result of either kind.
pub Same-bind :
    {A B : Type 0} (r : A × List Arrival) (f : A × List ℕ) (k : A → List Arrival → B × List Arrival)
    (j : A → List ℕ → B × List ℕ)
    → Same r f
    → ((a : A) → Alike (k a) (j a))
    → Same (k r.0 r.1) (j f.0 f.1)
Same-bind {A} r f k j h g =
    subst (λ (t : A × List ℕ). Same (k r.0 r.1) (j t.0 t.1))
      (ap₂ (λ (a : A) (c : List ℕ). (a, c)) h.0 h.2) (g r.0 r.1 h.1)

Same-word_of :
    (r : Option (List ℕ) × List Arrival) (f : Option (List ℕ) × List ℕ)
    → Same r f
    → Same (word_of r) (word_of f)
unfolding word_of
Same-word_of (x, s) (y, cs) h = (ap word h.0, h.1, h.2)

pub Same-if :
    {X : Type 0} (b : Bool) (x y : X × List Arrival) (x' y' : X × List ℕ)
    → Same x x'
    → Same y y'
    → Same (if b then x else y) (if b then x' else y')
Same-if true x y x' y' p q = p
Same-if false x y x' y' p q = q

module _ (w : Wire) where
  pub word-Alike : Alike (λ s. word_of (read_all w 4 s)) (λ bs. word_of (flat_read 4 bs))
  word-Alike s v = Same-word_of _ _ (read_all-Same w 4 s v)

  pub skip_loop-Alike : (k n : ℕ) → Alike (skip_loop (read_all w) k n) (skip_loop flat_read k n)
  unfolding skip_loop
  skip_loop-Alike zero n s v = (refl, v, refl)
  skip_loop-Alike (suc k) n s v =
      Same-if (n == 0) _ _ _ _ (refl, v, refl)
        (Same-and_then _ _ false _ _ (read_all-Same w (if ltb 2048 n then 2048 else n) s v)
          (λ bs. skip_loop-Alike k (n - (if ltb 2048 n then 2048 else n))))

  module _ (z : Option (ℕ → List ℕ → Option (List ℕ))) where
    queue_block-Alike :
        (n : ℕ) (i : Inbox) → Alike (queue_block (read_all w) z n i) (queue_block flat_read z n i)
    unfolding queue_block
    queue_block-Alike n i s v =
        Same-and_then _ _ (unreadable, i) _ _ (read_all-Same w n s v) (λ bs s' v'. (refl, v', refl))

    skip_block-Alike :
        (n : ℕ) (i : Inbox) → Alike (skip_block (read_all w) n i) (skip_block flat_read n i)
    unfolding skip_block skip
    skip_block-Alike n i s v =
        Same-bind (skip_loop (read_all w) 1251 n s) (skip_loop flat_read 1251 n (content s))
          (λ ok s'. if ok then ((done, skipped i), s') else ((unreadable, i), s'))
          (λ ok s'. if ok then ((done, skipped i), s') else ((unreadable, i), s'))
          (skip_loop-Alike 1251 n s v)
          (λ ok s' v'. Same-if ok _ _ _ _ (refl, v', refl) (refl, v', refl))

    block_of_size-Alike :
        (n : ℕ) (i : Inbox)
        → Alike (block_of_size (read_all w) z n i) (block_of_size flat_read z n i)
    unfolding block_of_size
    block_of_size-Alike n i s v =
        Same-if (ltb max_block_size n) _ _ _ _ (refl, v, refl)
          (Same-if (n == 0) _ _ _ _ (refl, v, refl)
            (Same-if (leb n max_queued_frame && ltb i.queue.count queue_size) _ _ _ _
              (queue_block-Alike n i s v) (skip_block-Alike n i s v)))

    next_block-Alike : (i : Inbox) → Alike (next_block (read_all w) z i) (next_block flat_read z i)
    unfolding next_block
    next_block-Alike i s v =
        Same-and_then _ _ (unreadable, i) _ _ (word-Alike s v) (λ n. block_of_size-Alike n i)

    read_blocks-Alike :
        (k : ℕ) (i : Inbox) → Alike (read_blocks (read_all w) k z i) (read_blocks flat_read k z i)
    unfolding read_blocks
    read_blocks-Alike zero i s v = (refl, v, refl)
    read_blocks-Alike (suc k) i s v =
        Same-bind (next_block (read_all w) z i s) (next_block flat_read z i (content s))
          (λ r s'. if is_done r.0 then read_blocks (read_all w) k z r.1 s' else (r, s'))
          (λ r s'. if is_done r.0 then read_blocks flat_read k z r.1 s' else (r, s'))
          (next_block-Alike i s v)
          (λ r s' v'.
            Same-if (is_done r.0) _ _ _ _ (read_blocks-Alike k r.1 s' v') (refl, v', refl))

    keepalive_payload-Alike :
        (n : ℕ) (i : Inbox)
        → Alike (keepalive_payload (read_all w) n i) (keepalive_payload flat_read n i)
    unfolding keepalive_payload
    keepalive_payload-Alike n i s v =
        Same-and_then _ _ (unreadable, i) _ _ (read_all-Same w (if ltb 512 n then 512 else n) s v)
          (λ bs s' v'. (refl, v', refl))

    pub read_message-Alike :
        (i : Inbox) → Alike (read_message (read_all w) z i) (read_message flat_read z i)
    unfolding read_message
    read_message-Alike i s v =
        Same-and_then _ _ (unreadable, i) _ _ (word-Alike s v)
          (λ count s' v'.
            Same-if (count == keep_alive_magic) _ _ _ _
              (Same-and_then _ _ (unreadable, i) _ _ (word-Alike s' v')
                (λ n. keepalive_payload-Alike n i))
              (Same-if (count == 0) _ _ _ _ (refl, v', refl) (read_blocks-Alike count i s' v')))

-- The result of reading a message, in TLS or raw, depends on the bytes alone: streams without errors
-- and waits that carry the same bytes, cut up in any two ways, end the same, queue and skip the same
-- and leave the same bytes unread, also where they end early.
pub read_message_fragments :
    (w w' : Wire) (z : Option (ℕ → List ℕ → Option (List ℕ))) (i : Inbox) (s s' : List Arrival)
    → IsFlowing s
    → IsFlowing s'
    → content s ≡ content s'
    → ((read_message (read_all w) z i s).0 ≡ (read_message (read_all w') z i s').0)
      × (content (read_message (read_all w) z i s).1
          ≡ content (read_message (read_all w') z i s').1)
read_message_fragments w w' z i s s' v v' e =
    let h = read_message-Alike w z i s v in
    let h' = read_message-Alike w' z i s' v' in
    let same = ap (read_message flat_read z i) e in
    (
      h.0 ∙ ap (λ (r : (Ending × Inbox) × List ℕ). r.0) same ∙ sym h'.0,
      h.2 ∙ ap (λ (r : (Ending × Inbox) × List ℕ). r.1) same ∙ sym h'.2,
    )
