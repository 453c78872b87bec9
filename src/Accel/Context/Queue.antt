-- ===== src/Accel/Context/Queue.antt =====
-- The receive queue is a queue of blocks.
use softether_android_client.Base.{
  ℕ, zero, suc, ◌+◌, ◌-◌, ◌%◌, ◌≤◌, ◌<◌, ◌≡◌, refl, ap, ap₂, ◌∙◌, arith, List, [], ◌∷◌, ◌++◌,
  length, ltb, if◌then◌else◌, Bool-cases, inl, inr, ne→==, ==_self,
}
use softether_android_client.Accel.Context.{
  Ring, Context, Received, empty, failed, block, update, enqueue, recv,
}

-- `n` entries from place `h` on, round the end.
abbrev pub entries : (ℕ → List ℕ) → ℕ → ℕ → List (List ℕ)
entries slots zero h = []
entries slots (suc n) h = slots h ∷ entries slots n ((h + 1) % 256)

pub record IsRing (q : Ring) : Type 0 where
  pub head_within : q.head < 256
  pub tail_at : q.tail ≡ (q.head + q.count) % 256
  pub few : q.count ≤ 256

-- The blocks that wait, oldest first.
abbrev pub waiting : Ring → List (List ℕ)
waiting q = entries q.slots q.count q.head

entries-update :
    (slots : ℕ → List ℕ) (bs : List ℕ) (n h t : ℕ)
    → h < 256
    → n < 256
    → t ≡ (h + n) % 256
    → entries (update slots t bs) (suc n) h ≡ entries slots n h ++ (bs ∷ [])
entries-update slots bs zero h t hh hn e =
    let same : h ≡ t = omega arith in rw (same, ==_self t) refl
entries-update slots bs (suc n) h t hh hn e =
    ap₂ ◌∷◌ (rw (ne→== h t (omega arith)) refl)
      (entries-update slots bs n ((h + 1) % 256) t (omega arith) (omega arith) (omega arith))

-- With room, `rudp_process_inner` puts a block behind those that wait.
pub enqueue_lem :
    (q : Ring) (bs : List ℕ)
    → IsRing q
    → q.count < 256
    → IsRing (enqueue bs q) × (waiting (enqueue bs q) ≡ waiting q ++ (bs ∷ []))
unfolding enqueue
enqueue_lem q bs v room = (
  record { head_within = v.head_within; tail_at = omega (arith, v.tail_at); few = omega arith },
  ap (λ (n : ℕ). entries (update q.slots q.tail bs) n q.head) one_more
      ∙ entries-update q.slots bs q.count q.head q.tail v.head_within room v.tail_at,
)
  where
    one_more : q.count + 1 ≡ suc q.count
    one_more = omega arith

-- What `rudp_recv` promises, over the blocks that wait.
abbrev pub dequeue : ℕ → List (List ℕ) → List (List ℕ) × Received
dequeue max_len [] = ([], empty)
dequeue max_len (bs ∷ rest) =
    if ltb max_len (length bs) then (bs ∷ rest, failed) else (rest, block bs)

abbrev pub locks_kept : Received → ℕ
locks_kept empty = 0
locks_kept failed = 1
locks_kept (block bs) = 0

-- On a valid receive queue `rudp_recv` takes the oldest block, reports an empty queue, or, when
-- that block is longer than the buffer, fails and leaves it where it is; the queue stays valid.
-- The mutex is released again except on that failure.
pub recv_lem :
    (max_len : ℕ) (c : Context)
    → IsRing c.recv_queue
    → IsRing (recv max_len c).0.recv_queue
      × (waiting (recv max_len c).0.recv_queue ≡ (dequeue max_len (waiting c.recv_queue)).0)
      × ((recv max_len c).1 ≡ (dequeue max_len (waiting c.recv_queue)).1)
      × ((recv max_len c).0.lock_depth ≡ c.lock_depth + locks_kept (recv max_len c).1)
unfolding recv
recv_lem max_len c v = go c.recv_queue.count refl
  where
    less : (n : ℕ) → suc n - 1 ≡ n
    less n = omega arith

    go :
        (n : ℕ)
        → c.recv_queue.count ≡ n
        → IsRing (recv max_len c).0.recv_queue
          × (waiting (recv max_len c).0.recv_queue ≡ (dequeue max_len (waiting c.recv_queue)).0)
          × ((recv max_len c).1 ≡ (dequeue max_len (waiting c.recv_queue)).1)
          × ((recv max_len c).0.lock_depth ≡ c.lock_depth + locks_kept (recv max_len c).1)
    go zero e = rw e (
      record {
        head_within = v.head_within;
        tail_at = omega (arith, v.tail_at, e);
        few = omega arith;
      },
      refl,
      refl,
      omega arith,
    )
    go (suc n) e = elim (Bool-cases (ltb max_len (length (c.recv_queue.slots c.recv_queue.head)))) [
      | inl long ↦
          rw (e, ne→== (suc n) 0 (omega arith), long)
            (
              record {
                head_within = v.head_within;
                tail_at = omega (arith, v.tail_at, e);
                few = omega (arith, v.few, e);
              },
              refl,
              refl,
              refl,
            )
      | inr fits ↦
          rw (e, ne→== (suc n) 0 (omega arith), fits)
            (
              record {
                head_within = omega arith;
                tail_at = omega (arith, v.tail_at, e);
                few = omega (arith, v.few, e);
              },
              ap (λ (k : ℕ). entries c.recv_queue.slots k ((c.recv_queue.head + 1) % 256)) (less n),
              refl,
              omega arith,
            )
    ]
