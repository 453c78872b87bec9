-- ===== src/Channel/Ethernet/Inboxes.antt =====
-- Sending leaves the receive queue alone.
use softether_android_client.Base.{
  ℕ, ◌+◌, ◌-◌, ◌≡◌, refl, ◌∙◌, Option, none, some, List, ltb, ◌==◌, ◌&&◌, ◌||◌, not, if_both,
  length, Bool, true, false,
}
use softether_android_client.Accel.Context.{Context}
use softether_android_client.Accel.Window.{is_send_ready}
use softether_android_client.Channel.Connection.{Connection, is_connected, is_down, slot}
use softether_android_client.Channel.Send.{
  Sent, select_send_socket, write_selected, send_packet, fits_in, send_payload, data_block,
}
use softether_android_client.Channel.Send.Order.{selected}
use softether_android_client.Channel.Receive.{Library, rudp_poll}
use softether_android_client.Channel.Ethernet.{
  Sending, Done, ready_result, rudp_of, try_rudp, udp_or, over_tcp, send_data, send_raw, arp_reply,
  reply_with, reply_arp_request,
}

module _ (z : List ℕ → Option (List ℕ)) (l : Library) (m : Sending) where
  selected-inbox : (c : Connection) → (select_send_socket c).0.inbox ≡ c.inbox
  selected-inbox c = selected (λ (d : Connection). d.inbox ≡ c.inbox) c (λ n. refl)

  write_selected-inbox :
      (b : List ℕ) (i : ℕ) (c : Connection) → (write_selected m.writes b i c).0.0.inbox ≡ c.inbox
  unfolding write_selected
  write_selected-inbox b i c =
      if_both (λ (r : (Connection × Sent) × Option ℕ). r.0.0.inbox ≡ c.inbox)
        (ltb 0 i && not ((slot (i - 1) c).active && (slot (i - 1) c).ssl)) _ _ refl refl

  send_packet-inbox :
      (f : List ℕ) (c : Connection) → (send_packet m.writes z f c).0.0.inbox ≡ c.inbox
  unfolding send_packet
  send_packet-inbox f c =
      let Same : (Connection × Sent) × Option ℕ → Type 0 = λ r. r.0.0.inbox ≡ c.inbox in
      if_both Same (is_down c.state || not c.ssl) _ _ refl (
        if_both Same (not (fits_in c.send_block_cap (8 + length (send_payload z c f)))) _ _ refl (
          write_selected-inbox (data_block (send_payload z c f)) (select_send_socket c).1
            (select_send_socket c).0
          ∙ selected-inbox c))

  ready_result-inbox :
      (c : Connection) (f : List ℕ) (r : Context × Bool)
      → (ready_result z l m c f r).0.inbox ≡ c.inbox
  ready_result-inbox c f (x, true) = refl
  ready_result-inbox c f (x, false) = refl

  rudp_of-inbox :
      (c : Connection) (f : List ℕ) (x : Option Context) → (rudp_of z l m c f x).0.inbox ≡ c.inbox
  rudp_of-inbox c f none = refl
  rudp_of-inbox c f (some x) =
      ready_result-inbox c f (is_send_ready c.session_established (rudp_poll l m.round x))

  try_rudp-inbox : (f : List ℕ) (c : Connection) → (try_rudp z l m f c).0.inbox ≡ c.inbox
  unfolding try_rudp
  try_rudp-inbox f c =
      if_both (λ (r : Connection × Option (List ℕ)). r.0.inbox ≡ c.inbox) c.rudp_enabled _ _
        (rudp_of-inbox c f c.rudp) refl

  udp_or-inbox :
      (f : List ℕ) (k : Connection → Done) (r : Connection × Option (List ℕ))
      → ((c : Connection) → (k c).connection.inbox ≡ c.inbox)
      → (udp_or z l m f k r).connection.inbox ≡ r.0.inbox
  udp_or-inbox f k (c, none) h = h c
  udp_or-inbox f k (c, some pkt) h = refl

  send_data-inbox : (f : List ℕ) (c : Connection) → (send_data z l m f c).connection.inbox ≡ c.inbox
  unfolding send_data
  send_data-inbox f c =
      if_both (λ (d : Done). d.connection.inbox ≡ c.inbox) (is_connected c.state) _ _
        (udp_or-inbox f (λ c'. over_tcp (send_packet m.writes z f c')) (try_rudp z l m f c)
            (send_packet-inbox f)
          ∙ try_rudp-inbox f c)
        refl

  send_raw-inbox : (f : List ℕ) (c : Connection) → (send_raw z l m f c).connection.inbox ≡ c.inbox
  unfolding send_raw
  send_raw-inbox f c =
      let Same : Done → Type 0 = λ d. d.connection.inbox ≡ c.inbox in
      if_both Same (length f == 0) _ _ refl
        (if_both Same (not (is_connected c.state)) _ _ refl (send_data-inbox f c))

  reply_with-inbox :
      (c : Connection) (r : Option (List ℕ)) → (reply_with z l m c r).0.inbox ≡ c.inbox
  reply_with-inbox c none = refl
  reply_with-inbox c (some f) = send_raw-inbox f c

  pub reply_arp_request-inbox :
      (f : List ℕ) (c : Connection) → (reply_arp_request z l m f c).0.inbox ≡ c.inbox
  unfolding reply_arp_request
  reply_arp_request-inbox f c = reply_with-inbox c (arp_reply c f)
