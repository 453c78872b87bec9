-- ===== src/Channel/Sound.antt =====
-- Sending keeps a connection valid: the receive queue a ring, and `num_additional` the number of the
-- additional sockets in use.
pub mod Takes
pub mod Links
pub mod Reads
pub mod Waits
pub mod Calls
use softether_android_client.Base.{
  ℕ, zero, suc, ◌+◌, ◌-◌, ◌≡◌, Option, none, some, List, [], ◌∷◌, ltb, ◌==◌, ◌&&◌, ◌||◌, not,
  if◌then◌else◌, if_both, Bool-cases, and_left, inl, inr, length, Bool, true, false,
}
use softether_android_client.Accel.Context.{Context}
use softether_android_client.Accel.Window.{is_send_ready}
use softether_android_client.Channel.Stream.{Write}
use softether_android_client.Channel.Connection.{
  Connection, is_connected, is_disconnecting, is_down, is_open, slot, retire, retire-IsCounted,
}
use softether_android_client.Channel.Send.{
  Sent, select_send_socket, usable, write_to, write_failed, try_candidates, transmit_block_nolock,
  send_order, write_selected, send_packet, fits_in, send_payload, data_block,
}
use softether_android_client.Channel.Send.Order.{selected}
use softether_android_client.Channel.Receive.{Library, rudp_poll}
use softether_android_client.Channel.Receive.Counts.{IsValid}
use softether_android_client.Channel.Ethernet.{
  Sending, Done, fail, fits_block, counted_as, transmitted, ready_result, rudp_of, try_rudp, udp_or,
  over_tcp, send_data_block, send_data, send_raw, send_ip, ip_frame, arp_reply, reply_with,
  reply_arp_request,
}

-- A change of other fields than the queue, the sockets and their number.
selected-IsValid : (c : Connection) → IsValid c → IsValid (select_send_socket c).0
selected-IsValid c v = selected IsValid c (λ n. record { ring = v.ring; counted = v.counted })

write_failed-IsValid :
    (i : ℕ) (c : Connection) → usable i c ≡ true → IsValid c → IsValid (write_failed i c)
unfolding write_failed usable
write_failed-IsValid zero c h v = v
write_failed-IsValid (suc k) c h v =
    let t = slot k c in
    let active = and_left t.active t.ssl (and_left (t.active && t.ssl) (is_open t.socket_fd) h) in
    record { ring = unfold retire in v.ring; counted = retire-IsCounted k c active v.counted }

module _ (block : List ℕ) (writes : ℕ → List Write) where
  try_candidates-IsValid :
      (is : List ℕ) (c : Connection) → IsValid c → IsValid (try_candidates block writes is c).0.0
  unfolding try_candidates
  try_candidates-IsValid [] c v = v
  try_candidates-IsValid (i ∷ is) c v = elim (Bool-cases (usable i c)) [
    | inl up ↦ elim (Bool-cases (write_to i c block (writes i)).1) [
      | inl ok ↦ rw (up, ok) v
      | inr broken ↦
          rw (up, broken)
            (try_candidates-IsValid is (write_failed i c) (write_failed-IsValid i c up v))
    ]
    | inr down ↦ rw down (try_candidates-IsValid is c v)
  ]

  transmit_block_nolock-IsValid :
      (c : Connection) → IsValid c → IsValid (transmit_block_nolock block writes c).0.0
  unfolding transmit_block_nolock
  transmit_block_nolock-IsValid c v =
      let Valid : (Connection × Sent) × Bool → Type 0 = λ r. IsValid r.0.0 in
      if_both Valid (ltb (length block) 8) _ _ v (
        if_both Valid (is_disconnecting c.state || not c.ssl) _ _ v (
          try_candidates-IsValid (send_order (select_send_socket c).1 (select_send_socket c).0)
            (select_send_socket c).0 (selected-IsValid c v)))

module _ (z : List ℕ → Option (List ℕ)) (l : Library) (m : Sending) where
  write_selected-IsValid :
      (b : List ℕ) (i : ℕ) (c : Connection)
      → IsValid c
      → IsValid (write_selected m.writes b i c).0.0
  unfolding write_selected
  write_selected-IsValid b i c v =
      if_both (λ (r : (Connection × Sent) × Option ℕ). IsValid r.0.0)
        (ltb 0 i && not ((slot (i - 1) c).active && (slot (i - 1) c).ssl)) _ _ v v

  send_packet-IsValid :
      (f : List ℕ) (c : Connection) → IsValid c → IsValid (send_packet m.writes z f c).0.0
  unfolding send_packet
  send_packet-IsValid f c v =
      let Valid : (Connection × Sent) × Option ℕ → Type 0 = λ r. IsValid r.0.0 in
      if_both Valid (is_down c.state || not c.ssl) _ _ v (
        if_both Valid (not (fits_in c.send_block_cap (8 + length (send_payload z c f)))) _ _ v (
          write_selected-IsValid (data_block (send_payload z c f)) (select_send_socket c).1
            (select_send_socket c).0 (selected-IsValid c v)))

  ready_result-IsValid :
      (c : Connection) (f : List ℕ) (r : Context × Bool)
      → IsValid c
      → IsValid (ready_result z l m c f r).0
  ready_result-IsValid c f (x, true) v = record { ring = v.ring; counted = v.counted }
  ready_result-IsValid c f (x, false) v = record { ring = v.ring; counted = v.counted }

  rudp_of-IsValid :
      (c : Connection) (f : List ℕ) (x : Option Context)
      → IsValid c
      → IsValid (rudp_of z l m c f x).0
  rudp_of-IsValid c f none v = v
  rudp_of-IsValid c f (some x) v =
      ready_result-IsValid c f (is_send_ready c.session_established (rudp_poll l m.round x)) v

  try_rudp-IsValid : (f : List ℕ) (c : Connection) → IsValid c → IsValid (try_rudp z l m f c).0
  unfolding try_rudp
  try_rudp-IsValid f c v =
      if_both (λ (r : Connection × Option (List ℕ)). IsValid r.0) c.rudp_enabled _ _
        (rudp_of-IsValid c f c.rudp v) v

  udp_or-IsValid :
      (f : List ℕ) (k : Connection → Done) (r : Connection × Option (List ℕ))
      → ((c : Connection) → IsValid c → IsValid (k c).connection)
      → IsValid r.0
      → IsValid (udp_or z l m f k r).connection
  udp_or-IsValid f k (c, none) h v = h c v
  udp_or-IsValid f k (c, some pkt) h v = v

  send_data-IsValid :
      (f : List ℕ) (c : Connection) → IsValid c → IsValid (send_data z l m f c).connection
  unfolding send_data
  send_data-IsValid f c v =
      if_both (λ (d : Done). IsValid d.connection) (is_connected c.state) _ _
        (udp_or-IsValid f (λ c'. over_tcp (send_packet m.writes z f c')) (try_rudp z l m f c)
          (send_packet-IsValid f) (try_rudp-IsValid f c v))
        v

  pub send_raw-IsValid :
      (f : List ℕ) (c : Connection) → IsValid c → IsValid (send_raw z l m f c).connection
  unfolding send_raw
  send_raw-IsValid f c v =
      let Valid : Done → Type 0 = λ d. IsValid d.connection in
      if_both Valid (length f == 0) _ _ v
        (if_both Valid (not (is_connected c.state)) _ _ v (send_data-IsValid f c v))

  send_data_block-IsValid :
      (b f : List ℕ) (c : Connection) → IsValid c → IsValid (send_data_block z l m b f c).connection
  unfolding send_data_block
  send_data_block-IsValid b f c v =
      udp_or-IsValid f (λ c'. transmitted (length f) (transmit_block_nolock b m.writes c'))
        (try_rudp z l m f c) (transmit_block_nolock-IsValid b m.writes) (try_rudp-IsValid f c v)

  counted_as-IsValid :
      (n : ℕ) (d : Done) (r : Option ℕ)
      → IsValid d.connection
      → IsValid (counted_as z l m n d r).connection
  counted_as-IsValid n d none v = v
  counted_as-IsValid n d (some k) v = record { ring = v.ring; counted = v.counted }

  pub send_ip-IsValid :
      (p : List ℕ) (c : Connection) → IsValid c → IsValid (send_ip z l m p c).connection
  unfolding send_ip
  send_ip-IsValid p c v =
      let Valid : Done → Type 0 = λ d. IsValid d.connection in
      let f = ip_frame c p in
      if_both Valid (length p == 0) _ _ v (
        if_both Valid (not (is_connected c.state)) _ _ v (
          if_both Valid (not (fits_block z l m c.send_block_cap (length p))) _ _ v (
            if_both Valid (is_disconnecting c.state || not c.ssl) _ _ v (
              counted_as-IsValid (length p) (send_data_block z l m (data_block f) f c)
                (send_data_block z l m (data_block f) f c).result
                (send_data_block-IsValid (data_block f) f c v)))))

  reply_with-IsValid :
      (c : Connection) (r : Option (List ℕ)) → IsValid c → IsValid (reply_with z l m c r).0
  reply_with-IsValid c none v = v
  reply_with-IsValid c (some f) v = send_raw-IsValid f c v

  pub reply_arp_request-IsValid :
      (f : List ℕ) (c : Connection) → IsValid c → IsValid (reply_arp_request z l m f c).0
  unfolding reply_arp_request
  reply_arp_request-IsValid f c v = reply_with-IsValid c (arp_reply c f) v
