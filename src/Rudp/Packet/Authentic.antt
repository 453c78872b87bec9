-- ===== src/Rudp/Packet/Authentic.antt =====
-- The signature of packets, and the queues of the session, in `rt_handle_udp_packet`.
use softether_android_client.Base.{
  Bool, length-take, ap, subst, get_or, ◌-◌, ◌*◌, suc, zero, ◌++◌, drop, true, ==→eq, and_right,
  and_left, length-append, u64, ℕ, ◌+◌, ◌≤◌, ◌≡◌, ◌⊎◌, inl, inr, arith, refl, Option, none, some,
  List, [], ◌∷◌, ltb, leb, ◌==◌, if◌then◌else◌, length, take, false, Bool-cases,
}
use softether_android_client.Pack.Reader.{list_eq}
use softether_android_client.Rudp.Session.{
  Status, connect_sent, established, disconnected, Session, process_ack, process_ack2, add_ack,
  has_seq, process_recv_payload, max_num_ack, max_segment_size, new_segment,
}
use softether_android_client.Rudp.Session.Window.{IsWindow}
use softether_android_client.Rudp.Session.Acks.{process_acks-IsWindow, AreDistinct, add_ack_lem}
use softether_android_client.Rudp.Packet.{
  r32, r64, read_acks, read_header, Transport, Header, process_acks, note_header, note_payload,
  peer_disconnects, process_header, process_decoded, establish, is_signed, handle_signed,
  handle_udp_packet, max_packet_size, decrypt, strip_padding, is_disconnected,
}

-- What the session keeps: the send queue in order, and no more than 64 entries in its arrays.
pub record IsOrdered (se : Session) : Type 0 where
  pub window : IsWindow se
  pub distinct_acks : AreDistinct se.reply_acks
  pub few_acks : length se.reply_acks ≤ max_num_ack
  pub few_received : length se.recv_segments ≤ max_num_ack

process_acks-IsOrdered :
    (se : Session) (as' : List ℕ) → IsOrdered se → IsOrdered (process_acks se as')
unfolding process_acks
process_acks-IsOrdered se [] o = o
process_acks-IsOrdered se (a ∷ as') o = process_acks-IsOrdered (process_ack se a) as' (
    unfold process_ack in
    record {
      window = unfold process_ack in (process_acks-IsWindow se a o.window).0;
      distinct_acks = o.distinct_acks;
      few_acks = o.few_acks;
      few_received = o.few_received;
    })

process_ack2-IsOrdered : (se : Session) (m : ℕ) → IsOrdered se → IsOrdered (process_ack2 se m)
unfolding process_ack2
process_ack2-IsOrdered se m o = record {
  window = (process_acks-IsWindow se m o.window).1;
  distinct_acks = o.distinct_acks;
  few_acks = o.few_acks;
  few_received = o.few_received;
}

add_ack-IsOrdered : (se : Session) (seq : ℕ) → IsOrdered se → IsOrdered (add_ack se seq)
add_ack-IsOrdered se seq o =
    let a = add_ack_lem se seq o.distinct_acks o.few_acks in
    let same = same_rest se seq in
    record {
      window = record {
        increasing = rw (same.0, same.1) o.window.increasing;
        bounded = rw same.0 o.window.bounded;
      };
      distinct_acks = a.0;
      few_acks = a.1;
      few_received = rw same.2 o.few_received;
    }
  where
    same_rest :
        (se : Session) (seq : ℕ)
        → ((add_ack se seq).send_segments ≡ se.send_segments)
          × ((add_ack se seq).next_send_seq ≡ se.next_send_seq)
          × ((add_ack se seq).recv_segments ≡ se.recv_segments)
    same_rest se seq = unfold add_ack in ground arith

process_recv_payload-IsOrdered :
    (se : Session) (seq : ℕ) (bs : List ℕ)
    → IsOrdered se
    → IsOrdered (process_recv_payload se seq bs)
unfolding process_recv_payload
process_recv_payload-IsOrdered se seq bs o =
    elim (Bool-cases (ltb (u64 (se.last_recv_complete_seq + max_num_ack)) seq)) [
      | inl beyond ↦ rw beyond o
      | inr within ↦ elim (Bool-cases (leb seq se.last_recv_complete_seq)) [
        | inl old ↦ rw (within, old) (add_ack-IsOrdered se seq o)
        | inr later ↦ elim (Bool-cases (has_seq seq se.recv_segments)) [
          | inl again ↦ rw (within, later, again) (add_ack-IsOrdered se seq o)
          | inr first ↦ elim (Bool-cases (leb max_num_ack (length se.recv_segments))) [
            | inl full ↦ rw (within, later, first, full) o
            | inr room ↦
                rw (within, later, first, room)
                  (add_ack-IsOrdered _ seq (record {
                    window = record {
                      increasing = o.window.increasing;
                      bounded = o.window.bounded;
                    };
                    distinct_acks = o.distinct_acks;
                    few_acks = o.few_acks;
                    few_received =
                        ground (arith, length-append se.recv_segments (new_segment seq bs ∷ []));
                  }))
          ]
        ]
      ]
    ]

-- The fields outside the arrays do not matter.
same-IsOrdered :
    (se : Session) (status : Status) (tick : ℕ)
    → IsOrdered se
    → IsOrdered (record se { status = status; latest_recv_my_tick = tick })
same-IsOrdered se status tick o = record {
  window = record { increasing = o.window.increasing; bounded = o.window.bounded };
  distinct_acks = o.distinct_acks;
  few_acks = o.few_acks;
  few_received = o.few_received;
}

establish-IsOrdered :
    (status : Status) (t : Transport) → IsOrdered t.session → IsOrdered (establish status t).session
establish-IsOrdered connect_sent t o =
    same-IsOrdered t.session established t.session.latest_recv_my_tick o
establish-IsOrdered established t o = o
establish-IsOrdered disconnected t o = o

note_header-IsOrdered :
    (h : Header) (t : Transport) → IsOrdered t.session → IsOrdered (note_header h t).session
unfolding note_header
note_header-IsOrdered h t o = elim (Bool-cases (leb 1 h.max_ack)) [
  | inl some_ack ↦ rw some_ack (
      same-IsOrdered _ _ _
        (process_acks-IsOrdered _ h.acks (process_ack2-IsOrdered t.session h.max_ack o)))
  | inr no_ack ↦ rw no_ack (same-IsOrdered _ _ _ (process_acks-IsOrdered _ h.acks o))
]

note_payload-IsOrdered :
    (src_port : ℕ) (h : Header) (t : Transport)
    → IsOrdered t.session
    → IsOrdered (note_payload src_port h t).session
unfolding note_payload
note_payload-IsOrdered src_port h t o =
    elim (Bool-cases
      (leb 1 (if ltb max_segment_size (length h.payload) then 0 else length h.payload))) [
        | inl data_here ↦ rw data_here (
            establish-IsOrdered _
              (record t { session = process_recv_payload t.session h.seq_no h.payload })
              (process_recv_payload-IsOrdered t.session h.seq_no h.payload o))
        | inr no_data ↦ rw no_data (establish-IsOrdered _ t o)
      ]

process_header-IsOrdered :
    (src_port : ℕ) (h : Header) (t : Transport)
    → IsOrdered t.session
    → IsOrdered (process_header src_port h t).session
unfolding process_header peer_disconnects
process_header-IsOrdered src_port h t o =
    let n = note_header-IsOrdered h t o in
    elim (Bool-cases (h.seq_no == 0)) [
      | inl z ↦ rw z n
      | inr nz ↦ elim (Bool-cases (h.seq_no == t.magic_disconnect)) [
        | inl bye ↦ rw (nz, bye) (same-IsOrdered _ disconnected _ n)
        | inr on ↦ rw (nz, on) (note_payload-IsOrdered src_port h (note_header h t) n)
      ]
    ]

-- What the comparison of the signature means.
list_eq_lem : (xs ys : List ℕ) → list_eq xs ys ≡ true → xs ≡ ys
unfolding list_eq
list_eq_lem [] [] h = refl
list_eq_lem [] (y ∷ ys) h = absurd (cc h)
list_eq_lem (x ∷ xs) [] h = absurd (cc h)
list_eq_lem (x ∷ xs) (y ∷ ys) h =
    rw
      (
        ==→eq x y (and_left (x == y) (list_eq xs ys) h),
        list_eq_lem xs ys (and_right (x == y) (list_eq xs ys) h),
      )
      refl

length-read_acks : (p : List ℕ) (i n : ℕ) → length (read_acks p i n) ≡ n
unfolding read_acks
length-read_acks p i zero = refl
length-read_acks p i (suc n) = omega (arith, length-read_acks p (i + 8) n)

guard_some {ℓ} :
    {A : Type ℓ} (b : Bool) (x : Option A) (a : A)
    → (if b then none else x) ≡ some a
    → (b ≡ false) × (x ≡ some a)
guard_some true x a h = absurd (cc h)
guard_some false x a h = (refl, h)

-- What the checks of the header leave.
read_header-checked :
    (now : ℕ) (enc : List ℕ) (n : ℕ) (h : Header)
    → read_header now enc n ≡ some h
    → (h.your_tick ≤ now) × (length h.acks ≤ 64)
unfolding read_header
read_header-checked now enc n h e =
    let long = guard_some (ltb n 36) _ h e in
    let few = guard_some (ltb max_num_ack (r32 enc 24)) _ h long.1 in
    let whole = guard_some (ltb n (36 + r32 enc 24 * 8)) _ h few.1 in
    let past = guard_some (ltb now (r64 enc 8)) _ h whole.1 in
    let tick : r64 enc 8 ≡ h.your_tick = your_tick_of past.1 in
    let acks : read_acks enc 28 (r32 enc 24) ≡ h.acks = acks_of past.1 in
    (
      subst (λ k. k ≤ now) tick (ground (arith, past.0)),
      subst (λ as'. length as' ≤ 64) acks
          (omega (arith, length-read_acks enc 28 (r32 enc 24), few_enough few.0)),
    )
  where
    your_tick_of : {h h' : Header} → some h ≡ some h' → h.your_tick ≡ h'.your_tick
    your_tick_of {h} {h'} e = let same : h ≡ h' = cc e in ap (λ (k : Header). k.your_tick) same

    acks_of : {h h' : Header} → some h ≡ some h' → h.acks ≡ h'.acks
    acks_of {h} {h'} e = let same : h ≡ h' = cc e in ap (λ (k : Header). k.acks) same

    few_enough : {k : ℕ} → ltb max_num_ack k ≡ false → k ≤ 64
    few_enough h = ground (arith, h)

strip_padding-checked :
    (now : ℕ) (enc : List ℕ) (h : Header)
    → strip_padding now enc ≡ some h
    → (h.your_tick ≤ now) × (length h.acks ≤ 64)
unfolding strip_padding
strip_padding-checked now enc h e =
    let pad = get_or enc (length enc - 1) 0 in
    let some_byte = guard_some (ltb (length enc) 1) _ h e in
    let some_pad = guard_some (pad == 0) _ h some_byte.1 in
    let within = guard_some (ltb (length enc) pad) _ h some_pad.1 in
    read_header-checked now enc (length enc - pad) h within.1

module _ (sha1 : List ℕ → List ℕ) (rc4 : List ℕ → List ℕ → List ℕ) where
  -- What a packet has that the transport takes notice of: its bytes, as far as they are copied, are
  -- 20 bytes that are the SHA-1 of the session's key and the rest, a vector of 20 bytes, and a header
  -- that decrypts to one with a tick of this end that is not ahead of it and 64 acknowledgements at
  -- most.
  pub record IsAuthentic (now : ℕ) (buf : List ℕ) (t : Transport) : Type 0 where
    pub alive : is_disconnected t.session.status ≡ false
    pub long : 40 ≤ length buf
    pub signed : take 20 (take 1355 buf) ≡ sha1 (t.key_recv ++ drop 20 (take 1355 buf))
    pub header : Header
    pub decrypted : strip_padding now (decrypt sha1 rc4 t.key_recv (take 1355 buf)) ≡ some header
    pub in_time : header.your_tick ≤ now
    pub few_acks : length header.acks ≤ 64

  process_decoded-IsAuthentic :
      (now src_port : ℕ) (buf : List ℕ) (t : Transport) (m : Option Header)
      → strip_padding now (decrypt sha1 rc4 t.key_recv (take 1355 buf)) ≡ m
      → is_disconnected t.session.status ≡ false
      → 40 ≤ length buf
      → take 20 (take 1355 buf) ≡ sha1 (t.key_recv ++ drop 20 (take 1355 buf))
      → (process_decoded src_port m t ≡ t) ⊎ IsAuthentic now buf t
  process_decoded-IsAuthentic now src_port buf t none e on long signed = inl refl
  process_decoded-IsAuthentic now src_port buf t (some h) e on long signed =
      let checked = strip_padding-checked now (decrypt sha1 rc4 t.key_recv (take 1355 buf)) h e in
      inr (record {
        alive = on;
        long = long;
        signed = signed;
        header = h;
        decrypted = e;
        in_time = checked.0;
        few_acks = checked.1;
      })

  -- Every packet leaves the transport as it was, byte for byte, or is authentic: it came to a session
  -- that is not disconnected, its first 20 bytes are all of the SHA-1 of the key of the session and
  -- the bytes behind them, as far as the 1,355 that are copied go, and what it decrypts to has a header
  -- with at most 64 acknowledgements and no tick ahead of the clock.
  pub handle_udp_packet-IsAuthentic :
      (now src_ip src_port : ℕ) (buf : List ℕ) (t : Transport)
      → (handle_udp_packet sha1 rc4 now src_ip src_port buf t ≡ t) ⊎ IsAuthentic now buf t
  unfolding handle_udp_packet handle_signed
  handle_udp_packet-IsAuthentic now src_ip src_port buf t =
      elim (Bool-cases (is_disconnected t.session.status)) [
        | inl over ↦ inl (rw over refl)
        | inr on ↦ elim (Bool-cases (ltb (length buf) 20)) [
          | inl short ↦ inl (rw (on, short) refl)
          | inr long ↦ elim (Bool-cases (is_signed sha1 rc4 t.key_recv (take 1355 buf))) [
            | inr forged ↦ inl (rw (on, long, forged) refl)
            | inl signed ↦ elim (Bool-cases (ltb (length (take 1355 buf)) 40)) [
              | inl no_iv ↦ inl (rw (on, long, signed, no_iv) refl)
              | inr whole ↦
                  rw (on, long, signed, whole)
                    (process_decoded-IsAuthentic now src_port buf t
                      (strip_padding now (decrypt sha1 rc4 t.key_recv (take 1355 buf))) refl on
                      (longer whole) (list_eq_lem _ _ signed))
            ]
          ]
        ]
      ]
    where
      longer : ltb (length (take 1355 buf)) 40 ≡ false → 40 ≤ length buf
      longer whole = ground (arith, whole, length-take 1355 buf)

  -- No packet, signed or not, puts the send queue out of order, lists a number twice among the
  -- pending acknowledgements, or fills an array beyond its 64 places.
  pub handle_udp_packet-IsOrdered :
      (now src_ip src_port : ℕ) (buf : List ℕ) (t : Transport)
      → IsOrdered t.session
      → IsOrdered (handle_udp_packet sha1 rc4 now src_ip src_port buf t).session
  unfolding handle_udp_packet handle_signed
  handle_udp_packet-IsOrdered now src_ip src_port buf t o =
      elim (Bool-cases (is_disconnected t.session.status)) [
        | inl over ↦ rw over o
        | inr on ↦ elim (Bool-cases (ltb (length buf) 20)) [
          | inl short ↦ rw (on, short) o
          | inr long ↦
              rw (on, long)
                (elim (Bool-cases (is_signed sha1 rc4 t.key_recv (take max_packet_size buf))) [
                  | inr forged ↦ rw forged o
                  | inl signed ↦ elim (Bool-cases (ltb (length (take max_packet_size buf)) 40)) [
                    | inl no_iv ↦ rw (signed, no_iv) o
                    | inr whole ↦
                        rw (signed, whole)
                          (decoded (
                            strip_padding now
                              (decrypt sha1 rc4 t.key_recv (take max_packet_size buf))))
                  ]
                ])
        ]
      ]
    where
      decoded : (m : Option Header) → IsOrdered (process_decoded src_port m t).session
      decoded none = o
      decoded (some h) = process_header-IsOrdered src_port h t o
