-- ===== src/Channel/Ethernet/Batch.antt =====
-- What `softether_receive_batch` takes from the queue.
use softether_android_client.Base.{
  ℕ, zero, suc, ◌+◌, ◌-◌, ◌≤◌, ◌≡◌, refl, sym, ap, ◌∙◌, subst, arith, Option, List, [], ◌∷◌, length,
  length-drop, drop, ltb, ltb→ge, ◌==◌, ==→ne, ne→==, not, if◌then◌else◌, Bool-cases, inl, inr,
}
use softether_android_client.Accel.Context.{Ring}
use softether_android_client.Channel.Inbox.{Inbox, pop}
use softether_android_client.Channel.Inbox.Queue.{IsRing, waiting, entries, pop_lem}
use softether_android_client.Channel.Connection.{Connection}
use softether_android_client.Channel.Send.{Sent}
use softether_android_client.Channel.Receive.{Library}
use softether_android_client.Channel.Ethernet.Inboxes.{reply_arp_request-inbox}
use softether_android_client.Channel.Ethernet.{
  Sending, is_arp, is_ip, reply_arp_request, pop_frame, head_frame, also, after_sent, batch_loop,
}

-- What a batch is to take from frames that wait, and what it is to leave: the IP packets in order,
-- as far as they fit, ARP and other frames dropped on the way.
unfoldable pub scan : ℕ → ℕ → ℕ → List (List ℕ) → List (List ℕ) × List (List ℕ)
scan max_len total left [] = ([], [])
scan max_len total left (f ∷ fs) =
    let passed = scan max_len total left fs in
    let (ps, rest) = scan max_len (total + (length f - 14)) (left - 1) fs in
    if left == 0
    then ([], f ∷ fs)
    else if is_arp f
    then passed
    else if not (is_ip f)
    then passed
    else if ltb max_len (total + (length f - 14))
    then ([], f ∷ fs)
    else (drop 14 f ∷ ps, rest)

-- The bytes of packets.
abbrev pub size_of : List (List ℕ) → ℕ
size_of [] = 0
size_of (p ∷ ps) = length p + size_of ps

scan-fits :
    (max_len total left : ℕ) (fs : List (List ℕ))
    → total ≤ max_len
    → (total + size_of (scan max_len total left fs).0 ≤ max_len)
      × (length (scan max_len total left fs).0 ≤ left)
unfolding scan
scan-fits max_len total left [] h = (omega (arith, h), omega arith)
scan-fits max_len total left (f ∷ fs) h =
    let passed = scan-fits max_len total left fs h in
    elim (Bool-cases (left == 0)) [
      | inl full ↦ rw full (omega (arith, h), omega arith)
      | inr wanted ↦ elim (Bool-cases (is_arp f)) [
        | inl arp ↦ rw (wanted, arp) passed
        | inr other ↦ elim (Bool-cases (is_ip f)) [
          | inr unknown ↦ rw (wanted, other, unknown) passed
          | inl ip ↦ elim (Bool-cases (ltb max_len (total + (length f - 14)))) [
            | inl long ↦ rw (wanted, other, ip, long) (omega (arith, h), omega arith)
            | inr fits ↦
                let ih =
                  scan-fits max_len (total + (length f - 14)) (left - 1) fs (ltb→ge _ _ fits) in
                let some_left = ==→ne left 0 wanted in
                rw (wanted, other, ip, fits)
                  (omega (arith, ih.0, length-drop 14 f), omega (arith, ih.1, some_left))
          ]
        ]
      ]
    ]

-- What a batch has to do: the packets it gives and the frames that still wait.
record Scanned (s : List (List ℕ) × List (List ℕ)) (r : (Connection × Sent) × List (List ℕ))
    : Type 0 where
  valid : IsRing r.0.0.inbox.queue
  packets : r.1 ≡ s.0
  rest : waiting r.0.0.inbox.queue ≡ s.1

module _ (z : List ℕ → Option (List ℕ)) (l : Library) (max_len : ℕ) where
  Scanned-also :
      (p : List ℕ) (s : List (List ℕ) × List (List ℕ)) (r : (Connection × Sent) × List (List ℕ))
      → Scanned s r
      → Scanned (p ∷ s.0, s.1) (also z l max_len p r)
  Scanned-also p s r h = record {
    valid = h.valid;
    packets = ap (λ (ps : List (List ℕ)). p ∷ ps) h.packets;
    rest = h.rest;
  }

  Scanned-after :
      (log : Sent) (s : List (List ℕ) × List (List ℕ)) (r : (Connection × Sent) × List (List ℕ))
      → Scanned s r
      → Scanned s (after_sent z l max_len log r)
  Scanned-after log s r h = record { valid = h.valid; packets = h.packets; rest = h.rest }

  no_frames :
      (total left : ℕ) (c : Connection) → c.inbox.queue.count ≡ 0 → waiting c.inbox.queue ≡ []
  no_frames total left c e = ap (λ (n : ℕ). entries c.inbox.queue.slots n c.inbox.queue.head) e

  pop-count : (q : Ring) → (pop q).count ≡ q.count - 1
  unfolding pop
  pop-count q = refl

  batch_loop-Scanned :
      (n : ℕ) (m : ℕ → Sending) (total left : ℕ) (c : Connection)
      → IsRing c.inbox.queue
      → n ≡ c.inbox.queue.count
      → Scanned
          (scan max_len total left (waiting c.inbox.queue))
          (batch_loop z l max_len n m total left c)
  unfolding batch_loop scan
  batch_loop-Scanned zero m total left c v e =
      rw (no_frames total left c (sym e))
        record { valid = v; packets = refl; rest = no_frames total left c (sym e) }
  batch_loop-Scanned (suc n) m total left c v e =
      let q = c.inbox.queue in
      let f = head_frame c in
      let fs = waiting (pop q) in
      let (w, same) = pop_lem q v (omega arith) in
      let one_less : n ≡ (pop q).count = omega (arith, e, pop-count q) in
      rw (same, ne→== q.count 0 (omega arith))
        (elim (Bool-cases (left == 0)) [
          | inl full ↦ rw full record { valid = v; packets = refl; rest = same }
          | inr wanted ↦ elim (Bool-cases (is_arp f)) [
            | inl arp ↦
                let c' = (reply_arp_request z l (m 0) f c).0 in
                let kept : c'.inbox ≡ c.inbox = reply_arp_request-inbox z l (m 0) f c in
                rw (wanted, arp)
                  (Scanned-after (reply_arp_request z l (m 0) f c).1 _ _ (
                    subst
                      (λ (i : Inbox).
                        Scanned (scan max_len total left (waiting (pop i.queue)))
                          (batch_loop z l max_len n (λ k. m (k + 1)) total left (pop_frame c')))
                      kept
                      (batch_loop-Scanned n (λ k. m (k + 1)) total left (pop_frame c')
                        (subst (λ (i : Inbox). IsRing (pop i.queue)) (sym kept) w)
                        (one_less ∙ ap (λ (i : Inbox). (pop i.queue).count) (sym kept)))))
            | inr other ↦ elim (Bool-cases (is_ip f)) [
              | inr unknown ↦
                  rw (wanted, other, unknown)
                    (batch_loop-Scanned n m total left (pop_frame c) w one_less)
              | inl ip ↦ elim (Bool-cases (ltb max_len (total + (length f - 14)))) [
                | inl long ↦
                    rw (wanted, other, ip, long) record { valid = v; packets = refl; rest = same }
                | inr fits ↦
                    rw (wanted, other, ip, fits)
                      (Scanned-also (drop 14 f) _ _ (
                        batch_loop-Scanned n m (total + (length f - 14)) (left - 1) (pop_frame c) w
                          one_less))
              ]
            ]
          ]
        ])

  -- On a valid receive queue the loop of `softether_receive_batch`, with room for `max_len` bytes and
  -- `left` packets, takes the IP packets from the front, in order and whole, as many as fit: those of
  -- `scan`, which stay within the room and the number. ARP and other frames before them are dropped,
  -- the frames behind them still wait, and the queue stays a ring.
  pub batch_loop-scan :
      (m : ℕ → Sending) (left : ℕ) (c : Connection)
      → IsRing c.inbox.queue
      → let r = batch_loop z l max_len c.inbox.queue.count m 0 left c in
        (r.1 ≡ (scan max_len 0 left (waiting c.inbox.queue)).0)
        × (waiting r.0.0.inbox.queue ≡ (scan max_len 0 left (waiting c.inbox.queue)).1)
        × IsRing r.0.0.inbox.queue
        × (size_of r.1 ≤ max_len)
        × (length r.1 ≤ left)
  batch_loop-scan m left c v =
      let h = batch_loop-Scanned c.inbox.queue.count m 0 left c v refl in
      let (size, number) = scan-fits max_len 0 left (waiting c.inbox.queue) (omega arith) in
      (
        h.packets,
        h.rest,
        h.valid,
        subst (λ (ps : List (List ℕ)). size_of ps ≤ max_len) (sym h.packets) (omega (arith, size)),
        subst (λ (ps : List (List ℕ)). length ps ≤ left) (sym h.packets) number,
      )
