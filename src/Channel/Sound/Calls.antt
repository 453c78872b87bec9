-- ===== src/Channel/Sound/Calls.antt =====
-- The packet calls in whatever order they come.
use softether_android_client.Base.{Bool, ℕ, Option, List, [], ◌∷◌}
use softether_android_client.Channel.Connection.{Connection}
use softether_android_client.Channel.Receive.{Library, Meets}
use softether_android_client.Channel.Receive.Counts.{IsValid}
use softether_android_client.Channel.Ethernet.{Sending, send_ip, send_raw}
use softether_android_client.Channel.Calls.{Receiving, receive, receive_raw, receive_batch}
use softether_android_client.Channel.Gateway.{Resolving, resolve_gateway}
use softether_android_client.Channel.Links.{
  Accepted, additional_connect_thread, close_additional, disconnect,
}
use softether_android_client.Channel.Sound.Links.{
  additional_connect_thread-IsValid, close_additional-IsValid, disconnect-IsValid,
}
use softether_android_client.Channel.Data.{Reading, receive_data}
use softether_android_client.Channel.Sound.Reads.{
  receive-IsValid, receive_raw-IsValid, receive_batch-IsValid,
}
use softether_android_client.Channel.Sound.Waits.{resolve_gateway-IsValid, receive_data-IsValid}
use softether_android_client.Channel.Sound.{send_ip-IsValid, send_raw-IsValid}

-- A call with what it meets, the end of the thread that connects an additional socket, and a
-- disconnect.
pub data Call : Type 0 where
  sends : Sending → List ℕ → Call
  sends_raw : Sending → List ℕ → Call
  receives : Receiving → ℕ → Call
  receives_raw : Meets → ℕ → Call
  receives_batch : Receiving → ℕ → ℕ → Call
  reads_data : Reading → ℕ → Call
  resolves : Resolving → ℕ → Call
  connects_additional : Option Accepted → Call
  closes_additional : Call
  disconnects : Bool → Call

module _ (z : List ℕ → Option (List ℕ)) (unzip : ℕ → List ℕ → Option (List ℕ)) (l : Library) where
  abbrev run_call : Call → Connection → Connection
  run_call (sends m p) c = (send_ip z l m p c).connection
  run_call (sends_raw m f) c = (send_raw z l m f c).connection
  run_call (receives r n) c = (receive z unzip l r n c).0.0
  run_call (receives_raw m n) c = (receive_raw z unzip l m n c).0.0
  run_call (receives_batch r n k) c = (receive_batch z unzip l r n k c).0.0
  run_call (reads_data r n) c = (receive_data unzip l r n c).0.0
  run_call (resolves r ip) c = (resolve_gateway z unzip l r ip c).0.0
  run_call (connects_additional a) c = additional_connect_thread a c
  run_call closes_additional c = close_additional c
  run_call (disconnects b) c = disconnect b c

  abbrev pub run : List Call → Connection → Connection
  run [] c = c
  run (k ∷ ks) c = run ks (run_call k c)

  run_call-IsValid : (k : Call) (c : Connection) → IsValid c → IsValid (run_call k c)
  run_call-IsValid (sends m p) c v = send_ip-IsValid z l m p c v
  run_call-IsValid (sends_raw m f) c v = send_raw-IsValid z l m f c v
  run_call-IsValid (receives r n) c v = receive-IsValid z unzip l r n c v
  run_call-IsValid (receives_raw m n) c v = receive_raw-IsValid z unzip l m n c v
  run_call-IsValid (receives_batch r n k) c v = receive_batch-IsValid z unzip l r n k c v
  run_call-IsValid (reads_data r n) c v = receive_data-IsValid unzip l r n c v
  run_call-IsValid (resolves r ip) c v = resolve_gateway-IsValid z unzip l r ip c v
  run_call-IsValid (connects_additional a) c v = additional_connect_thread-IsValid a c v
  run_call-IsValid closes_additional c v = close_additional-IsValid c v
  run_call-IsValid (disconnects b) c v = disconnect-IsValid b c v

  -- Whatever calls come in whatever order, and whatever they meet, from sockets that fail, close or
  -- give a part to datagrams, broken links and a disconnect during a poll, with sockets that are added
  -- and closed between them: the receive queue stays a ring of at most 64 frames, and
  -- `num_additional` the number of the additional sockets in use.
  pub run-IsValid : (ks : List Call) (c : Connection) → IsValid c → IsValid (run ks c)
  run-IsValid [] c v = v
  run-IsValid (k ∷ ks) c v = run-IsValid ks (run_call k c) (run_call-IsValid k c v)
