-- ===== src/Tests/Acceleration.antt =====
-- The UDP acceleration on concrete contexts.
use softether_android_client.Base.{
  Bool, ℕ, ◌+◌, ◌≤◌, ◌≡◌, arith, refl, Option, some, none, List, [], ◌∷◌, ◌++◌, true, false, length,
  replicate,
}
use softether_android_client.Accel.Context.{Context, Address, Ring, recv, update}
use softether_android_client.Accel.Context.Queue.{IsRing, waiting, dequeue, locks_kept, recv_lem}
use softether_android_client.Accel.Init.{Randoms, created, init_client, take_key}
use softether_android_client.Accel.Init.Starts.{created-IsSound, IsServer, init_client-Linked}
use softether_android_client.Accel.Send.{
  send, send_nolock, send_payload, send_v1, transmit, packet_v1,
}
use softether_android_client.Accel.Send.Fits.{IsAead, send-le}
use softether_android_client.Accel.Poll.{receive}
use softether_android_client.Accel.Sound.{IsSound}
use softether_android_client.Accel.Sound.Calls.{
  Call, sending, polling, receiving, asking, run, run-IsSound,
}
use softether_android_client.Accel.Exchange.{Linked, receive-send}

abbrev randoms : Randoms
randoms = record {
  my_key = replicate 20 1;
  your_key = replicate 20 2;
  my_key_v2 = replicate 128 3;
  your_key_v2 = replicate 128 4;
  next_iv = replicate 20 5;
  next_iv_v2 = replicate 12 6;
}

abbrev start : Context
start = created randoms 1 2 100

abbrev host : Address
host = record { is_ipv6 = false; host = 10 ∷ 0 ∷ 0 ∷ 1 ∷ []; port = 5004 }

-- Two blocks wait, round the end of the queue.
abbrev ring : Ring
ring = record {
  slots = update (update (λ i. []) 255 (7 ∷ 7 ∷ [])) 0 (8 ∷ []);
  head = 255;
  tail = 1;
  count = 2;
}

abbrev filled : Context
filled = record start { recv_queue = ring; inited = true; peer_addr = some host }

filled-IsRing : IsRing filled.recv_queue
filled-IsRing = record { head_within = omega arith; tail_at = omega arith; few = omega arith }

recv_lem_example :
    IsRing (recv 1600 filled).0.recv_queue
    × (waiting (recv 1600 filled).0.recv_queue ≡ (dequeue 1600 (waiting filled.recv_queue)).0)
    × ((recv 1600 filled).1 ≡ (dequeue 1600 (waiting filled.recv_queue)).1)
    × ((recv 1600 filled).0.lock_depth ≡ filled.lock_depth + locks_kept (recv 1600 filled).1)
recv_lem_example = recv_lem 1600 filled filled-IsRing

abbrev no_hash : List ℕ → List ℕ
no_hash bs = replicate 20 0

abbrev open_cipher : List ℕ → List ℕ → List ℕ → List ℕ × List ℕ
open_cipher key iv bs = (bs, replicate 16 0)

open_cipher-IsAead : IsAead open_cipher
open_cipher-IsAead = record { cipher_size = λ key iv bs. refl; mac_size = λ key iv bs. refl }

abbrev open_inverse : List ℕ → List ℕ → List ℕ → List ℕ → Option (List ℕ)
open_inverse key iv bs mac = some bs

abbrev no_codec : List ℕ → Option (List ℕ)
no_codec bs = none

abbrev calls : List Call
calls =
    sending 110 true 3 (1 ∷ 2 ∷ []) 0
    ∷ polling 120 (record { padding = 1; interval = 2; tick = 120; sent = true })
        (record { tick = 121; from = host; bytes = replicate 80 0 } ∷ [])
    ∷ receiving 1600
    ∷ asking true
    ∷ []

run-IsSound_example : IsSound (run no_hash open_cipher open_inverse no_codec no_codec calls start)
run-IsSound_example =
    run-IsSound no_hash open_cipher open_inverse no_codec no_codec open_cipher-IsAead calls start
      (created-IsSound randoms 1 2 100 refl refl)

-- Eight blocks were dropped.
abbrev congested : Context
congested = record start { recent_overflows = 8; last_loss_event_tick = 90; suspension_count = 1 }

abbrev asked : List (Bool × ℕ)
asked = (true, 200) ∷ ((false, 60000) ∷ ((true, 60099) ∷ []))

abbrev at_110 : Context
at_110 = record filled { now = 110 }

sent_packet :
    (send no_hash open_cipher no_codec 110 true 3 (1 ∷ 2 ∷ []) 0 filled).1
    ≡ some (packet_v1 no_hash 3 (1 ∷ 2 ∷ []) 0 at_110)
unfolding send send_nolock send_payload send_v1 transmit
sent_packet = refl

send-le_example : length (packet_v1 no_hash 3 (1 ∷ 2 ∷ []) 0 at_110) ≤ 2048
send-le_example =
    send-le no_hash open_cipher no_codec open_cipher-IsAead 110 true 3 (1 ∷ 2 ∷ []) 0 filled
      (packet_v1 no_hash 3 (1 ∷ 2 ∷ []) 0 at_110) (omega arith) refl refl sent_packet

filled-IsServer : IsServer filled randoms
filled-IsServer = record {
  ready = refl;
  plain = refl;
  old_version = refl;
  iv_size = refl;
  key_size = refl;
  cookie_fits = omega arith;
  tick_fits = omega arith;
}

init_client-Linked_example :
    ((init_client true true
        (some host)
        filled.my_key
        1
        filled.your_cookie
        105
        (created randoms 3 4 100)).1
      ≡ true)
    × Linked filled
        (init_client true true
          (some host)
          filled.my_key
          1
          filled.your_cookie
          105
          (created randoms 3 4 100)).0
init_client-Linked_example =
    init_client-Linked filled randoms 3 4 100 105 1 true host filled-IsServer

-- The other end, linked to the first by its initialisation.
abbrev peer : Context
peer =
    (init_client true true (some host) filled.my_key 1 filled.your_cookie 105
      (created randoms 3 4 100)).0

receive-send_example :
    (pkt : List ℕ) × ((send no_hash open_cipher no_codec 110 true 3 (1 ∷ 2 ∷ []) 0 filled).1
      ≡ some pkt)
    × (waiting
          (receive no_hash open_inverse no_codec
            (record { tick = 115; from = host; bytes = pkt })
            peer).recv_queue
        ≡ waiting peer.recv_queue ++ ((1 ∷ 2 ∷ []) ∷ []))
    × IsRing
        (receive no_hash open_inverse no_codec
          (record { tick = 115; from = host; bytes = pkt })
          peer).recv_queue
receive-send_example =
    receive-send no_hash open_cipher open_inverse no_codec no_codec 110 3 115 host (1 ∷ 2 ∷ [])
      filled peer (init_client-Linked filled randoms 3 4 100 105 1 true host filled-IsServer).1
      (omega arith) (unfold init_client take_key in omega arith) (omega arith) (omega arith)
