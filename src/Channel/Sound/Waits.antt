-- ===== src/Channel/Sound/Waits.antt =====
-- Resolving the gateway and `softether_receive_data` keep a connection valid.
use softether_android_client.Base.{
  ℕ, zero, suc, ◌+◌, Option, none, some, List, if_both, Bool, true, false, if◌then◌else◌,
}
use softether_android_client.Accel.Context.{Context}
use softether_android_client.Channel.Stream.{Arrival}
use softether_android_client.Channel.Connection.{Connection, is_connected}
use softether_android_client.Channel.Send.{Sent}
use softether_android_client.Channel.Receive.{Library, Meets}
use softether_android_client.Channel.Receive.Counts.{IsValid}
use softether_android_client.Channel.Ethernet.{
  Sending, Taken, nothing, refused, packet, arp_request, is_arp_answer, resolved,
}
use softether_android_client.Channel.Calls.{receive_raw}
use softether_android_client.Channel.Packet.{Packet, keepalive, data_of, receive_packet}
use softether_android_client.Channel.Gateway.{
  Resolving, on_look, listen, request, unless_found, attempts, resolve_gateway,
}
use softether_android_client.Channel.Data.{
  Reading, Outcome, udp_of, by_tcp, udp_or_tcp, receive_data,
}
use softether_android_client.Channel.Sound.{send_raw-IsValid}
use softether_android_client.Channel.Sound.Reads.{receive_raw-IsValid}

module _ (z : List ℕ → Option (List ℕ)) (unzip : ℕ → List ℕ → Option (List ℕ)) (l : Library)
    (ip : ℕ) where
  abbrev Keeps : (Connection → (Connection × Sent) × Bool) → Type 0
  Keeps k = (c : Connection) → IsValid c → IsValid (k c).0.0

  on_look-IsValid :
      (k : Connection → (Connection × Sent) × Bool) (r : (Connection × Sent) × Taken)
      → Keeps k
      → IsValid r.0.0
      → IsValid (on_look z unzip l ip k r).0.0
  on_look-IsValid k ((c, log), nothing) h v = h c v
  on_look-IsValid k ((c, log), refused) h v = h c v
  on_look-IsValid k ((c, log), packet f) h v =
      if_both (λ (r : (Connection × Sent) × Bool). IsValid r.0.0) (is_arp_answer ip f) _ _
        (unfold resolved in record { ring = v.ring; counted = v.counted }) (h c v)

  listen-IsValid : (n : ℕ) (looks : ℕ → Meets) → Keeps (listen z unzip l n ip looks)
  unfolding listen
  listen-IsValid zero looks c v = v
  listen-IsValid (suc n) looks c v =
      on_look-IsValid (listen z unzip l n ip (λ i. looks (i + 1)))
        (receive_raw z unzip l (looks 0) 2048 c) (listen-IsValid n (λ i. looks (i + 1)))
        (receive_raw-IsValid z unzip l (looks 0) 2048 c v)

  request-IsValid :
      (m : Sending) (c : Connection) → IsValid c → IsValid (request z unzip l ip m c).0
  request-IsValid m c v = send_raw-IsValid z l m (arp_request c ip) c v

  unless_found-IsValid :
      (m : Sending) (k : Connection → (Connection × Sent) × Bool) (r : (Connection × Sent) × Bool)
      → Keeps k
      → IsValid r.0.0
      → IsValid (unless_found z unzip l ip m k r).0.0
  unless_found-IsValid m k ((c, log), true) h v = v
  unless_found-IsValid m k ((c, log), false) h v =
      h (request z unzip l ip m c).0 (request-IsValid m c v)

  attempts-IsValid :
      (n : ℕ) (looks : ℕ → ℕ → Meets) (requests : ℕ → Sending)
      → Keeps (attempts z unzip l n ip looks requests)
  unfolding attempts
  attempts-IsValid zero looks requests c v = v
  attempts-IsValid (suc n) looks requests c v =
      unless_found-IsValid (requests 0)
        (attempts z unzip l n ip (λ i. looks (i + 1)) (λ i. requests (i + 1)))
        (listen z unzip l 40 ip (looks 0) c)
        (attempts-IsValid n (λ i. looks (i + 1)) (λ i. requests (i + 1)))
        (listen-IsValid 40 (looks 0) c v)

module _ (z : List ℕ → Option (List ℕ)) (unzip : ℕ → List ℕ → Option (List ℕ)) (l : Library) where
  pub resolve_gateway-IsValid :
      (r : Resolving) (ip : ℕ) (c : Connection)
      → IsValid c
      → IsValid (resolve_gateway z unzip l r ip c).0.0
  unfolding resolve_gateway
  resolve_gateway-IsValid r ip c v =
      let begun : IsValid (record c { gateway_ip = ip }) = record {
        ring = v.ring;
        counted = v.counted;
      } in
      if_both (λ (x : (Connection × Sent) × Bool). IsValid x.0.0) (is_connected c.state) _ _
        (attempts-IsValid z unzip l ip 3 r.looks (λ i. r.requests (i + 1))
          (request z unzip l ip (r.requests 0) (record c { gateway_ip = ip })).0
          (request-IsValid z unzip l ip (r.requests 0) (record c { gateway_ip = ip }) begun))
        v

module _ (unzip : ℕ → List ℕ → Option (List ℕ)) (l : Library) (r : Reading) (max_len : ℕ) where
  udp_of-IsValid :
      (c : Connection) (x : Option Context) → IsValid c → IsValid (udp_of unzip l r max_len c x).0
  udp_of-IsValid c none v = v
  udp_of-IsValid c (some x) v = record { ring = v.ring; counted = v.counted }

  by_tcp-IsValid :
      (c : Connection) (p : Option Packet × List Arrival)
      → IsValid c
      → IsValid (by_tcp unzip l r max_len c p).0.0
  by_tcp-IsValid c (none, s) v = v
  by_tcp-IsValid c (some (keepalive n), s) v = v
  by_tcp-IsValid c (some (data_of p n), s) v = v

  udp_or_tcp-IsValid :
      (x : Connection × Option (List ℕ))
      → IsValid x.0
      → IsValid (udp_or_tcp unzip l r max_len x).0.0
  udp_or_tcp-IsValid (c, some f) v = v
  udp_or_tcp-IsValid (c, none) v = by_tcp-IsValid c (receive_packet unzip max_len c r.incoming) v

  pub receive_data-IsValid :
      (c : Connection) → IsValid c → IsValid (receive_data unzip l r max_len c).0.0
  unfolding receive_data
  receive_data-IsValid c v =
      if_both (λ (x : (Connection × Sent) × Outcome). IsValid x.0.0) (is_connected c.state) _ _
        (udp_or_tcp-IsValid
          (if c.rudp_enabled then udp_of unzip l r max_len c c.rudp else (c, none))
          (if_both (λ (x : Connection × Option (List ℕ)). IsValid x.0) c.rudp_enabled _ _
            (udp_of-IsValid c c.rudp v) v))
        v
