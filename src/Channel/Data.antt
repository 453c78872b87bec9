-- ===== src/Channel/Data.antt =====
-- `softether_receive_data` of softether_protocol.c, with pointers that are there.
use softether_android_client.Base.{ℕ, Option, none, some, List, [], ◌∷◌, if◌then◌else◌, Bool}
use softether_android_client.Accel.Context.{Context, Received, empty, failed, block, recv}
use softether_android_client.Channel.Stream.{Arrival, Write}
use softether_android_client.Channel.Connection.{Connection, is_connected}
use softether_android_client.Channel.Send.{Sent, send_keepalive}
use softether_android_client.Channel.Receive.{Library, Round, rudp_poll}
use softether_android_client.Channel.Packet.{
  Packet, is_negative, keepalive, data_of, receive_packet,
}

-- What a call meets: the two polls of the UDP acceleration, whether its socket is there and `poll`
-- finds it readable, the bytes on the TCP socket, and what answering a keepalive takes.
pub record Reading : Type 0 where
  pub first : Round
  pub second : Round
  pub readable : Bool
  pub incoming : List Arrival
  pub size : ℕ
  pub rand : ℕ → ℕ
  pub writes : List Write

-- -1, 0 with `*command` 0 or a command and what stands in the buffer.
pub data Outcome : Type 0 where
  not_connected : Outcome
  nothing_read : Outcome
  keepalive_read : Outcome
  data_read : Option (List ℕ) → Outcome

-- A frame that `rudp_recv` gives, when its length is not 0.
abbrev pub frame_of : Context × Received → Context × Option (List ℕ)
frame_of (x, empty) = (x, none)
frame_of (x, failed) = (x, none)
frame_of (x, block []) = (x, none)
frame_of (x, block (b ∷ bs)) = (x, some (b ∷ bs))

module _ (unzip : ℕ → List ℕ → Option (List ℕ)) (l : Library) (r : Reading) (max_len : ℕ) where
  abbrev pub poll_again : Context × Option (List ℕ) → Context × Option (List ℕ)
  poll_again (x, some f) = (x, some f)
  poll_again (x, none) =
      let again = frame_of (recv max_len (rudp_poll l r.second x)) in
      if r.readable then again else (x, none)

  -- The frame that comes by UDP.
  unfoldable pub by_udp : Context → Context × Option (List ℕ)
  by_udp x = poll_again (frame_of (recv max_len (rudp_poll l r.first x)))

  abbrev pub udp_of : Connection → Option Context → Connection × Option (List ℕ)
  udp_of c none = (c, none)
  udp_of c (some x) = let (x', f) = by_udp x in (record c { rudp = some x' }, f)

  -- What is done with what `softether_receive_packet` gives.
  abbrev pub by_tcp : Connection → Option Packet × List Arrival → (Connection × Sent) × Outcome
  by_tcp c (none, s) = ((c, []), nothing_read)
  by_tcp c (some (keepalive n), s) =
      ((c, (send_keepalive r.size r.rand r.writes c).0), keepalive_read)
  by_tcp c (some (data_of p n), s) = ((c, []), if is_negative n then nothing_read else data_read p)

  abbrev pub udp_or_tcp : Connection × Option (List ℕ) → (Connection × Sent) × Outcome
  udp_or_tcp (c, some f) = ((c, []), data_read (some f))
  udp_or_tcp (c, none) = by_tcp c (receive_packet unzip max_len c r.incoming)

  -- `softether_receive_data`
  unfoldable pub receive_data : Connection → (Connection × Sent) × Outcome
  receive_data c =
      if is_connected c.state
      then udp_or_tcp (if c.rudp_enabled then udp_of c c.rudp else (c, none))
      else ((c, []), not_connected)
