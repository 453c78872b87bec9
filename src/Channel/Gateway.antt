-- ===== src/Channel/Gateway.antt =====
-- `softether_resolve_gateway` of softether_protocol.c. The pauses
-- between two looks at the queue change nothing and are left out, and so is the buffer: a frame of
-- more than 2,048 bytes does not come through `softether_receive_raw`.
use softether_android_client.Base.{
  ℕ, zero, suc, ◌+◌, Option, List, [], ◌++◌, if◌then◌else◌, Bool, true, false,
}
use softether_android_client.Channel.Connection.{Connection, is_connected}
use softether_android_client.Channel.Send.{Sent}
use softether_android_client.Channel.Receive.{Library, Meets}
use softether_android_client.Channel.Ethernet.{
  Sending, Taken, nothing, refused, packet, send_raw, arp_request, is_arp_answer, resolved,
}
use softether_android_client.Channel.Calls.{receive_raw}

-- What the wait for an answer meets: in each attempt the looks at the queue, and the sending of each
-- request.
pub record Resolving : Type 0 where
  pub looks : ℕ → ℕ → Meets
  pub requests : ℕ → Sending

module _ (z : List ℕ → Option (List ℕ)) (unzip : ℕ → List ℕ → Option (List ℕ)) (l : Library) where
  abbrev pub before : {X : Type 0} → Sent → (Connection × Sent) × X → (Connection × Sent) × X
  before log ((c, log'), x) = ((c, log ++ log'), x)

  -- What is done with what a look gives: an answer ends the wait.
  abbrev pub on_look :
      ℕ
      → (Connection → (Connection × Sent) × Bool)
      → (Connection × Sent) × Taken
      → (Connection × Sent) × Bool
  on_look ip k ((c, log), nothing) = before log (k c)
  on_look ip k ((c, log), refused) = before log (k c)
  on_look ip k ((c, log), packet f) =
      let rest = before log (k c) in
      if is_arp_answer ip f then ((resolved f c, log), true) else rest

  -- The looks of one attempt.
  unfoldable pub listen : ℕ → ℕ → (ℕ → Meets) → Connection → (Connection × Sent) × Bool
  listen zero ip looks c = ((c, []), false)
  listen (suc n) ip looks c =
      on_look ip (listen n ip (λ i. looks (i + 1))) (receive_raw z unzip l (looks 0) 2048 c)

  abbrev pub request : ℕ → Sending → Connection → Connection × Sent
  request ip m c = let d = send_raw z l m (arp_request c ip) c in (d.connection, d.tcp)

  abbrev pub unless_found :
      ℕ
      → Sending
      → (Connection → (Connection × Sent) × Bool)
      → (Connection × Sent) × Bool
      → (Connection × Sent) × Bool
  unless_found ip m k (r, true) = (r, true)
  unless_found ip m k ((c, log), false) =
      let (c', log') = request ip m c in before (log ++ log') (k c')

  -- The attempts, each of forty looks and a request.
  unfoldable pub attempts :
      ℕ → ℕ → (ℕ → ℕ → Meets) → (ℕ → Sending) → Connection → (Connection × Sent) × Bool
  attempts zero ip looks requests c = ((c, []), false)
  attempts (suc n) ip looks requests c =
      unless_found ip (requests 0) (attempts n ip (λ i. looks (i + 1)) (λ i. requests (i + 1)))
        (listen 40 ip (looks 0) c)

  -- `softether_resolve_gateway`: whether it returns 0.
  unfoldable pub resolve_gateway : Resolving → ℕ → Connection → (Connection × Sent) × Bool
  resolve_gateway r ip c =
      let (c', log) = request ip (r.requests 0) (record c { gateway_ip = ip }) in
      if is_connected c.state
      then before log (attempts 3 ip r.looks (λ i. r.requests (i + 1)) c')
      else ((c, []), false)
