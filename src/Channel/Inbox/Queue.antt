-- ===== src/Channel/Inbox/Queue.antt =====
-- The receive queue of a connection is a queue of frames.
use softether_android_client.Base.{
  ℕ, zero, suc, ◌+◌, ◌-◌, ◌%◌, ◌≤◌, ◌<◌, ◌≡◌, refl, ap, ap₂, ◌∙◌, arith, List, [], ◌∷◌, ◌++◌, ne→==,
  ==_self,
}
use softether_android_client.Accel.Context.{Ring, update}
use softether_android_client.Channel.Inbox.{enqueue, pop}

-- `n` entries from place `h` on, round the end.
abbrev pub entries : (ℕ → List ℕ) → ℕ → ℕ → List (List ℕ)
entries slots zero h = []
entries slots (suc n) h = slots h ∷ entries slots n ((h + 1) % 64)

pub record IsRing (q : Ring) : Type 0 where
  pub head_within : q.head < 64
  pub tail_at : q.tail ≡ (q.head + q.count) % 64
  pub few : q.count ≤ 64

-- The blocks that wait, oldest first.
abbrev pub waiting : Ring → List (List ℕ)
waiting q = entries q.slots q.count q.head

entries-update :
    (slots : ℕ → List ℕ) (bs : List ℕ) (n h t : ℕ)
    → h < 64
    → n < 64
    → t ≡ (h + n) % 64
    → entries (update slots t bs) (suc n) h ≡ entries slots n h ++ (bs ∷ [])
entries-update slots bs zero h t hh hn e =
    let same : h ≡ t = omega arith in rw (same, ==_self t) refl
entries-update slots bs (suc n) h t hh hn e =
    ap₂ ◌∷◌ (rw (ne→== h t (omega arith)) refl)
      (entries-update slots bs n ((h + 1) % 64) t (omega arith) (omega arith) (omega arith))

-- With room, a frame is put behind those that wait.
pub enqueue_lem :
    (q : Ring) (bs : List ℕ)
    → IsRing q
    → q.count < 64
    → IsRing (enqueue bs q) × (waiting (enqueue bs q) ≡ waiting q ++ (bs ∷ []))
unfolding enqueue
enqueue_lem q bs v room = (
  record { head_within = v.head_within; tail_at = omega (arith, v.tail_at); few = omega arith },
  ap (λ (n : ℕ). entries (update q.slots q.tail bs) n q.head) one_more
      ∙ entries-update q.slots bs q.count q.head q.tail v.head_within room v.tail_at,
)
  where
    one_more : q.count + 1 ≡ suc q.count
    one_more = omega arith

-- The oldest frame stands at the head, and the others wait behind it.
pub pop_lem :
    (q : Ring)
    → IsRing q
    → 0 < q.count
    → IsRing (pop q) × (waiting q ≡ q.slots q.head ∷ waiting (pop q))
unfolding pop
pop_lem q v h = (
  record {
    head_within = omega arith;
    tail_at = omega (arith, v.tail_at, h);
    few = omega (arith, v.few);
  },
  ap (λ (n : ℕ). entries q.slots n q.head) one_and_rest,
)
  where
    one_and_rest : q.count ≡ suc (q.count - 1)
    one_and_rest = omega arith

-- The first of the entries is the one at the head.
pub entries_head :
    (slots : ℕ → List ℕ) (n h : ℕ) (f : List ℕ) (fs : List (List ℕ))
    → entries slots n h ≡ f ∷ fs
    → (slots h ≡ f) × (0 < n)
entries_head slots zero h f fs e = absurd (cc e)
entries_head slots (suc n) h f fs e = (ap (first f) e, omega arith)
  where
    first : List ℕ → List (List ℕ) → List ℕ
    first d [] = d
    first d (x ∷ xs) = x

pub entries_empty : (slots : ℕ → List ℕ) (n h : ℕ) → entries slots n h ≡ [] → n ≡ 0
entries_empty slots zero h e = refl
entries_empty slots (suc n) h e = absurd (cc e)
