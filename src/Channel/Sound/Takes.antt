-- ===== src/Channel/Sound/Takes.antt =====
-- Taking frames from the queue and the upkeep of the links keep a connection valid.
use softether_android_client.Base.{
  ℕ, zero, suc, ◌+◌, ◌-◌, ◌<◌, ◌≡◌, refl, sym, subst, arith, Option, none, some, List, ltb, leb,
  ◌==◌, ==→ne, ◌&&◌, ◌||◌, not, if_both, Bool-cases, and_left, inl, inr, length, Bool, true, false,
}
use softether_android_client.Channel.Inbox.{Inbox}
use softether_android_client.Channel.Inbox.Queue.{pop_lem}
use softether_android_client.Channel.Connection.{
  Connection, is_connected, slot, shut, active_count-set,
}
use softether_android_client.Channel.Send.{Sent, send_keepalive_all}
use softether_android_client.Channel.Receive.{Library}
use softether_android_client.Channel.Receive.Counts.{IsValid}
use softether_android_client.Channel.Ethernet.{
  Sending, Taken, reply_arp_request, is_arp, is_ip, pop_frame, head_frame, take_ip, take_raw,
  batch_loop,
}
use softether_android_client.Channel.Ethernet.Inboxes.{reply_arp_request-inbox}
use softether_android_client.Channel.Calls.{
  Upkeep, free_slot, start_thread, launch, is_slot, clean_slot, clean_up, maintain_links,
}
use softether_android_client.Channel.Sound.{reply_arp_request-IsValid}

or_right : (a b : Bool) → (a || b) ≡ false → b ≡ false
or_right true b h = absurd (cc h)
or_right false b h = h

pop_frame-IsValid : (c : Connection) → 0 < c.inbox.queue.count → IsValid c → IsValid (pop_frame c)
pop_frame-IsValid c h v = record { ring = (pop_lem c.inbox.queue v.ring h).0; counted = v.counted }

pub take_raw-IsValid : (n : ℕ) (c : Connection) → IsValid c → IsValid (take_raw n c).0
unfolding take_raw
take_raw-IsValid n c v = elim (Bool-cases (c.inbox.queue.count == 0)) [
  | inl empty ↦ rw empty v
  | inr waits ↦
      let popped = pop_frame-IsValid c (omega (arith, ==→ne c.inbox.queue.count 0 waits)) v in
      rw waits (
        if_both (λ (r : Connection × Taken). IsValid r.0) (ltb n (length (head_frame c))) _ _ popped
          popped)
]

module _ (z : List ℕ → Option (List ℕ)) (l : Library) where
  -- An answer leaves the queue, so the frame that was answered can be taken out.
  popped_reply-IsValid :
      (m : Sending) (f : List ℕ) (c : Connection)
      → 0 < c.inbox.queue.count
      → IsValid c
      → IsValid (pop_frame (reply_arp_request z l m f c).0)
  popped_reply-IsValid m f c h v =
      pop_frame-IsValid (reply_arp_request z l m f c).0
        (subst (λ (i : Inbox). 0 < i.queue.count) (sym (reply_arp_request-inbox z l m f c)) h)
        (reply_arp_request-IsValid z l m f c v)

  pub take_ip-IsValid :
      (m : Sending) (n : ℕ) (c : Connection) → IsValid c → IsValid (take_ip z l m n c).0.0
  unfolding take_ip
  take_ip-IsValid m n c v = elim (Bool-cases (c.inbox.queue.count == 0)) [
    | inl empty ↦ rw empty v
    | inr waits ↦
        let some_there : 0 < c.inbox.queue.count =
          omega (arith, ==→ne c.inbox.queue.count 0 waits) in
        let popped = pop_frame-IsValid c some_there v in
        let Valid : (Connection × Sent) × Taken → Type 0 = λ r. IsValid r.0.0 in
        rw waits (
          if_both Valid (is_arp (head_frame c)) _ _
            (popped_reply-IsValid m (head_frame c) c some_there v)
            (if_both Valid (not (is_ip (head_frame c))) _ _ popped
              (if_both Valid (ltb n (length (head_frame c) - 14)) _ _ popped popped)))
  ]

  module _ (max_len : ℕ) where
    pub batch_loop-IsValid :
        (n : ℕ) (m : ℕ → Sending) (total left : ℕ) (c : Connection)
        → IsValid c
        → IsValid (batch_loop z l max_len n m total left c).0.0
    unfolding batch_loop
    batch_loop-IsValid zero m total left c v = v
    batch_loop-IsValid (suc n) m total left c v =
        elim (Bool-cases ((left == 0) || (c.inbox.queue.count == 0))) [
          | inl over ↦ rw over v
          | inr more ↦
              let f = head_frame c in
              let waits = or_right (left == 0) (c.inbox.queue.count == 0) more in
              let some_there : 0 < c.inbox.queue.count =
                omega (arith, ==→ne c.inbox.queue.count 0 waits) in
              let popped = pop_frame-IsValid c some_there v in
              let Valid : (Connection × Sent) × List (List ℕ) → Type 0 = λ r. IsValid r.0.0 in
              rw more (
                if_both Valid (is_arp f) _ _
                  (batch_loop-IsValid n (λ k. m (k + 1)) total left
                    (pop_frame (reply_arp_request z l (m 0) f c).0)
                    (popped_reply-IsValid (m 0) f c some_there v))
                  (if_both Valid (not (is_ip f)) _ _
                    (batch_loop-IsValid n m total left (pop_frame c) popped)
                    (if_both Valid (ltb max_len (total + (length f - 14))) _ _ v (
                      batch_loop-IsValid n m (total + (length f - 14)) (left - 1) (pop_frame c)
                        popped))))
        ]

start_thread-IsValid :
    (b : Bool) (o : Option ℕ) (c : Connection) → IsValid c → IsValid (start_thread b o c)
start_thread-IsValid b none c v = v
start_thread-IsValid true (some k) c v = record { ring = v.ring; counted = v.counted }
start_thread-IsValid false (some k) c v = record { ring = v.ring; counted = v.counted }

launch-IsValid : (u : Upkeep) (c : Connection) → IsValid c → IsValid (launch u c)
unfolding launch
launch-IsValid u c v =
    let v' = start_thread-IsValid u.created (free_slot 0 c.additional) c v in
    if_both IsValid
      (ltb c.num_additional (c.max_connection - 1)
        && (ltb c.additional_failed_count 16 && not c.additional_connecting)
        && ((c.next_connect_time == 0) || leb c.next_connect_time u.connect_now))
      _ _ record { ring = v'.ring; counted = v'.counted } v

clean_slot-IsValid : (u : Upkeep) (k : ℕ) (c : Connection) → IsValid c → IsValid (clean_slot u k c)
unfolding clean_slot
clean_slot-IsValid u k c v =
    let t = slot k c in
    let busy = c.additional_connecting && is_slot k c.additional_connect_slot in
    elim (Bool-cases (t.active && not busy && u.hung_up k)) [
      | inl broken ↦
          let active =
            and_left t.active (not busy) (and_left (t.active && not busy) (u.hung_up k) broken) in
          rw broken record {
            ring = v.ring;
            counted = omega (
              arith,
              v.counted,
              active_count-set c.additional k (record (shut t) { last_recv = 0 }) active refl,
            );
          }
      | inr fine ↦ rw fine v
    ]

clean_up-IsValid : (u : Upkeep) (n k : ℕ) (c : Connection) → IsValid c → IsValid (clean_up u n k c)
unfolding clean_up
clean_up-IsValid u zero k c v = v
clean_up-IsValid u (suc n) k c v =
    clean_up-IsValid u n (k + 1) (clean_slot u k c) (clean_slot-IsValid u k c v)

keepalives-IsValid :
    (u : Upkeep) (c : Connection)
    → IsValid c
    → IsValid (send_keepalive_all u.sizes u.rands u.writes c u.now).0.0
unfolding send_keepalive_all
keepalives-IsValid u c v =
    let Valid : (Connection × Sent) × Bool → Type 0 = λ r. IsValid r.0.0 in
    let noted : IsValid (record c { next_tcp_keepalive_time = u.now }) = record {
      ring = v.ring;
      counted = v.counted;
    } in
    if_both Valid (not c.ssl || not (is_connected c.state)) _ _ v (
      if_both Valid (c.next_tcp_keepalive_time == 0) _ _ noted (
        if_both Valid (ltb u.now c.next_tcp_keepalive_time) _ _ v
          record { ring = v.ring; counted = v.counted }))

pub maintain_links-IsValid :
    (u : Upkeep) (c : Connection) → IsValid c → IsValid (maintain_links u c).0
unfolding maintain_links
maintain_links-IsValid u c v =
    let c' = (send_keepalive_all u.sizes u.rands u.writes c u.now).0.0 in
    clean_up-IsValid u 8 0 (launch u c') (launch-IsValid u c' (keepalives-IsValid u c v))
