-- ===== src/Channel/Receive/Counts.antt =====
-- Whatever a call meets, the receive queue stays a ring and `num_additional` the number of the
-- additional sockets in use.
use softether_android_client.Base.{
  if_both, ℕ, zero, suc, ◌+◌, ◌≡◌, refl, sym, ap, ◌∙◌, subst, arith, Option, none, some, List, [],
  ◌∷◌, All, All-append, get_or, set, ltb, ltb→lt, ◌&&◌, ◌||◌, not, if◌then◌else◌, Bool-cases,
  and_left, inl, inr, Bool, true, false,
}
use softether_android_client.Accel.Context.{Context, Received, empty, failed, block, recv}
use softether_android_client.Channel.Stream.{tls, raw_fd, read_all}
use softether_android_client.Channel.Inbox.{
  Inbox, Ending, done, no_blocks, keepalive, unreadable, too_large, push, max_queued_frame,
  queue_size,
}
use softether_android_client.Channel.Inbox.Queue.{IsRing, enqueue_lem}
use softether_android_client.Channel.Inbox.Rings.{read_message-IsRing}
use softether_android_client.Channel.Connection.{
  Connection, TcpSock, is_disconnecting, is_down, can_receive, is_open, slot, unused, retire,
  active_count, IsCounted, retire-IsCounted,
}
use softether_android_client.Channel.Send.{Sent}
use softether_android_client.Channel.Receive.{
  Library, Round, Events, Polled, timeout, poll_error, ready, Meets, Filled, on_received,
  drain_loop, rudp_poll, drain_of, drain_rudp, read_found, poll_unless, has_udp, any_fatal,
  is_empty, watched_additional, watched, find, is_fatal, close_failed, mark_received, settle,
  read_on, read_from, on_ready, on_poll, fill_recv_queue,
}

pub record IsValid (c : Connection) : Type 0 where
  pub ring : IsRing c.inbox.queue
  pub counted : IsCounted c

-- The connection of a result is valid.
abbrev Valid : (Connection × Sent) × Filled → Type 0
Valid r = IsValid r.0.0

on_received-IsRing :
    (r : Received) (x : Context) (i : Inbox) (k : List ℕ → (Context × Inbox) × ℕ)
    → IsRing i.queue
    → ((bs : List ℕ) → IsRing (k bs).0.1.queue)
    → IsRing (on_received r x i k).0.1.queue
unfolding on_received
on_received-IsRing empty x i k v h = v
on_received-IsRing failed x i k v h = v
on_received-IsRing (block []) x i k v h = v
on_received-IsRing (block (b ∷ bs)) x i k v h = h (b ∷ bs)

drain_loop-IsRing :
    (n : ℕ) (x : Context) (i : Inbox) → IsRing i.queue → IsRing (drain_loop n x i).0.1.queue
unfolding drain_loop push
drain_loop-IsRing zero x i v = v
drain_loop-IsRing (suc n) x i v = elim (Bool-cases (ltb i.queue.count queue_size)) [
  | inr no_room ↦ rw no_room v
  | inl room ↦ rw room (
      on_received-IsRing (recv max_queued_frame x).1 (recv max_queued_frame x).0 i _ v (λ bs.
        drain_loop-IsRing n (recv max_queued_frame x).0 (push bs i)
          (enqueue_lem i.queue bs v (ltb→lt _ _ room)).0))
]

-- The socket of an index that is not 0 is in use.
abbrev Active : Connection → ℕ → Type 0
Active c zero = Unit
Active c (suc k) = (slot k c).active ≡ true

watched_additional-All :
    (P : ℕ → Type 0) (j : ℕ) (ts : List TcpSock)
    → ((k : ℕ) → (get_or ts k unused).active ≡ true → P (suc (j + k)))
    → All P (watched_additional j ts)
watched_additional-All P j [] h = tt
watched_additional-All P j (t ∷ ts) h =
    let rest =
      watched_additional-All P (j + 1) ts (λ k a. subst (λ n. P n) (omega arith) (h (suc k) a)) in
    elim (Bool-cases (t.active && is_open t.socket_fd && (can_receive t.direction && t.ssl))) [
      | inl on ↦ rw on (subst P (omega arith) (h 0 (and_left t.active _ (and_left _ _ on))), rest)
      | inr off ↦ rw off rest
    ]

abbrev value : ℕ → Option ℕ → ℕ
value d none = d
value d (some n) = n

find-All :
    (P : ℕ → Type 0) (f : ℕ → Bool) (is : List ℕ) (i : ℕ) → All P is → (find f is ≡ some i → P i)
find-All P f [] i h = λ e. absurd (cc e)
find-All P f (j ∷ is) i h = elim (Bool-cases (f j)) [
  | inl here ↦ rw here (λ e. subst P (ap (value j) e) h.0)
  | inr there ↦ rw there (find-All P f is i h.1)
]

watched-Active : (c : Connection) → All (Active c) (watched c)
unfolding watched
watched-Active c = All-append (Active c) _ _ primary (
    watched_additional-All (Active c) 0 c.additional
      (λ k a. let same : suc k ≡ suc (0 + k) = omega arith in subst (Active c) same a))
  where
    primary :
        All
          (Active c)
          (if is_open c.socket_fd && can_receive c.primary_direction then 0 ∷ [] else [])
    primary = elim (Bool-cases (is_open c.socket_fd && can_receive c.primary_direction)) [
      | inl on ↦ rw on (tt, tt)
      | inr off ↦ rw off tt
    ]

active_count-mark :
    (ts : List TcpSock) (k : ℕ) (t : TcpSock)
    → t.active ≡ (get_or ts k unused).active
    → active_count (set ts k t) ≡ active_count ts
active_count-mark [] k t h = refl
active_count-mark (x ∷ ts) zero t h = rw h refl
active_count-mark (x ∷ ts) (suc k) t h =
    ap (λ n. (if x.active then 1 else 0) + n) (active_count-mark ts k t h)

active-mark :
    (ts : List TcpSock) (k : ℕ) (t : TcpSock)
    → t.active ≡ true
    → (get_or ts k unused).active ≡ true
    → (get_or (set ts k t) k unused).active ≡ true
active-mark [] k t h g = g
active-mark (x ∷ ts) zero t h g = h
active-mark (x ∷ ts) (suc k) t h g = active-mark ts k t h g

-- The connection with the time of the message noted and the queue as the message left it.
marked :
    (i tick : ℕ) (c : Connection) (inbox : Inbox)
    → Active c i
    → IsRing inbox.queue
    → IsCounted c
    → IsValid (record (mark_received i tick c) { inbox = inbox })
      × Active (record (mark_received i tick c) { inbox = inbox }) i
marked zero tick c inbox a r e = (record { ring = r; counted = e }, tt)
marked (suc k) tick c inbox a r e = (
  record { ring = r; counted = e ∙ sym (active_count-mark c.additional k _ refl) },
  active-mark c.additional k (record (slot k c) { last_recv = tick }) a a,
)

close_failed-IsValid :
    (i : ℕ) (c : Connection) → Active c i → IsValid c → IsValid (close_failed i c).0
unfolding close_failed
close_failed-IsValid zero c a v = v
close_failed-IsValid (suc k) c a v = record {
  ring = unfold retire in v.ring;
  counted = retire-IsCounted k c a v.counted;
}

module _ (z : ℕ → List ℕ → Option (List ℕ)) (l : Library) (m : Meets) where
  settle-IsValid :
      (i : ℕ) (e : Ending) (c : Connection) → Active c i → IsValid c → Valid (settle z l m i e c)
  unfolding settle
  settle-IsValid i done c a v = v
  settle-IsValid i no_blocks c a v = v
  settle-IsValid i keepalive c a v = v
  settle-IsValid i unreadable c a v = close_failed-IsValid i c a v
  settle-IsValid i too_large c a v = v

  read_from-IsValid :
      (i : ℕ) (c : Connection) → Active c i → IsValid c → Valid (read_from z l m i c)
  unfolding read_from
  read_from-IsValid i c a v =
      let r = read_on z l m i c in
      let (w, b) =
        marked i m.tick c r.0.1 a
          (read_message-IsRing (read_all (if c.use_ssl_data then tls else raw_fd)) _ c.inbox
            (m.incoming i) v.ring)
          v.counted in
      settle-IsValid i r.0.0 (record (mark_received i m.tick c) { inbox = r.0.1 }) b w

  drain_of-IsValid :
      (r : Round) (c : Connection) (x : Option Context) → IsValid c → IsValid (drain_of l r c x).0
  drain_of-IsValid r c none v = v
  drain_of-IsValid r c (some x) v = record {
    ring = drain_loop-IsRing 64 (rudp_poll l r x) c.inbox v.ring;
    counted = v.counted;
  }

  drain_rudp-IsValid : (r : Round) (c : Connection) → IsValid c → IsValid (drain_rudp l r c).0
  unfolding drain_rudp
  drain_rudp-IsValid r c v =
      if_both (λ (d : Connection × ℕ). IsValid d.0) c.rudp_enabled _ _
        (drain_of-IsValid r c c.rudp v) v

  read_found-IsValid :
      (o : Option ℕ) (c : Connection)
      → ((i : ℕ) → o ≡ some i → Active c i)
      → IsValid c
      → Valid (read_found z l m o c)
  read_found-IsValid none c h v = v
  read_found-IsValid (some i) c h v = read_from-IsValid i c (h i refl) v

  -- The second drain leaves the sockets as they are.
  drain_of-Active :
      (r : Round) (c : Connection) (x : Option Context) (i : ℕ)
      → Active c i
      → Active (drain_of l r c x).0 i
  drain_of-Active r c none i a = a
  drain_of-Active r c (some x) zero a = tt
  drain_of-Active r c (some x) (suc k) a = a

  drain_rudp-Active :
      (r : Round) (c : Connection) (i : ℕ) → Active c i → Active (drain_rudp l r c).0 i
  unfolding drain_rudp
  drain_rudp-Active r c i a =
      if_both (λ (d : Connection × ℕ). Active d.0 i) c.rudp_enabled _ _
        (drain_of-Active r c c.rudp i a) a

  on_ready-IsValid : (f : ℕ → Events) (c : Connection) → IsValid c → Valid (on_ready z l m f c)
  unfolding on_ready
  on_ready-IsValid f c v =
      let c' = (drain_rudp l m.second c).0 in
      let v' = drain_rudp-IsValid m.second c v in
      let readable = find (λ i. (f i).readable) (watched c) in
      let active : (i : ℕ) → readable ≡ some i → Active c i =
        λ i. find-All (Active c) (λ i. (f i).readable) (watched c) i (watched-Active c) in
      if_both Valid ((has_udp z l m c && is_fatal false m.udp) || any_fatal f (watched c)) _ _ v (
        if_both Valid (has_udp z l m c && m.udp.readable) _ _
          (if_both Valid (ltb 0 (drain_rudp l m.second c).1) _ _ v' (
            read_found-IsValid readable c' (λ i e. drain_rudp-Active m.second c i (active i e)) v'))
          (read_found-IsValid readable c active v))

  on_poll-IsValid : (p : Polled) (c : Connection) → IsValid c → Valid (on_poll z l m p c)
  unfolding on_poll
  on_poll-IsValid timeout c v = v
  on_poll-IsValid poll_error c v = v
  on_poll-IsValid (ready f) c v =
      if_both Valid (is_disconnecting c.state) _ _ v (on_ready-IsValid f c v)

  poll_unless-IsValid :
      (o : Option ℕ) (c : Connection)
      → ((i : ℕ) → o ≡ some i → Active c i)
      → IsValid c
      → Valid (poll_unless z l m o c)
  poll_unless-IsValid none c h v =
      on_poll-IsValid m.polled (record c { state = m.state_after })
        record { ring = v.ring; counted = v.counted }
  poll_unless-IsValid (some i) c h v = read_from-IsValid i c (h i refl) v

  -- Whatever `softether_fill_recv_queue` meets, from datagrams and sockets that fail or close to a
  -- disconnect while it polls: the receive queue stays a ring of at most 64 frames, and
  -- `num_additional` stays the number of the additional sockets in use.
  pub fill_recv_queue-IsValid : (c : Connection) → IsValid c → IsValid (fill_recv_queue z l m c).0.0
  unfolding fill_recv_queue
  fill_recv_queue-IsValid c v =
      let c' = (drain_rudp l m.first c).0 in
      let v' = drain_rudp-IsValid m.first c v in
      let f : ℕ → Bool = λ i. c'.use_ssl_data && m.pending i in
      if_both Valid (not c.ssl || is_down c.state) _ _ v (
        if_both Valid (ltb 0 (drain_rudp l m.first c).1) _ _ v' (
          if_both Valid (not (has_udp z l m c') && is_empty z l m (watched c')) _ _ v' (
            poll_unless-IsValid (find f (watched c')) c'
              (λ i. find-All (Active c') f (watched c') i (watched-Active c')) v')))
