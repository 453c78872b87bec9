-- ===== src/Tests/Transport.antt =====
-- The R-UDP transport on concrete sessions.
use softether_android_client.Base.{
  drop, ◌≤◌, ◌⊎◌, ℕ, ◌+◌, ◌≡◌, arith, refl, some, List, [], ◌∷◌, ◌++◌, true, replicate,
}
use softether_android_client.Rudp.Fifo.{Fifo}
use softether_android_client.Rudp.Fifo.Refine.{IsValid}
use softether_android_client.Rudp.Session.{Session, new_segment, established, segment_send_fifo}
use softether_android_client.Rudp.Session.Window.{IsWindow}
use softether_android_client.Rudp.Session.Segmenting.{
  IsSending, IsDone, outgoing, segment_send_fifo_lem,
}
use softether_android_client.Rudp.Session.Acks.{AreDistinct}
use softether_android_client.Rudp.Fifo.Refine.{contents}
use softether_android_client.Rudp.Session.Window.{payloads}
use softether_android_client.Rudp.Interrupt.{Surroundings, interrupt}
use softether_android_client.Rudp.Interrupt.Delivers.{taken_by, interrupt-Delivers}
use softether_android_client.Rudp.Session.Stall.{arrive, tick, handle, handle_all, overtake_stalls}
use softether_android_client.Rudp.Packet.{Transport, handle_udp_packet}
use softether_android_client.Rudp.Packet.Authentic.{
  IsOrdered, IsAuthentic, handle_udp_packet-IsAuthentic, handle_udp_packet-IsOrdered,
}

-- 8, then 9, round the end of the buffer.
abbrev wrapped : Fifo
wrapped = record { buf = 9 ∷ 0 ∷ 0 ∷ 8 ∷ []; cap = 4; head = 3; size = 2 }

wrapped-IsValid : IsValid wrapped
wrapped-IsValid = record {
  whole = refl;
  positive = omega arith;
  small = omega arith;
  head_in = omega arith;
  size_in = omega arith;
}

abbrev magic : ℕ → List ℕ
magic b = replicate 20 b

-- Two segments are unacknowledged, and the next in order has arrived.
abbrev busy : Session
busy = record {
  status = established;
  magic_req = magic 1;
  magic_resp = magic 2;
  next_send_seq = 8;
  last_recv_complete_seq = 4;
  latest_recv_my_tick = 900;
  current_rtt = 0;
  last_sent_tick = 950;
  next_keepalive_interval = 2500;
  created_tick = 0;
  send_segments = new_segment 5 (1 ∷ []) ∷ new_segment 7 (2 ∷ []) ∷ [];
  recv_segments = new_segment 5 (3 ∷ []) ∷ new_segment 6 (4 ∷ []) ∷ [];
  reply_acks = 5 ∷ 6 ∷ [];
  send_fifo = wrapped;
  recv_fifo = wrapped;
}

busy-IsWindow : IsWindow busy
busy-IsWindow = record { increasing = omega arith; bounded = omega arith }

segment_send_fifo_lem_example :
    (se : Session) × (segment_send_fifo busy ≡ some se)
    × IsSending se
    × (outgoing se ≡ outgoing busy)
    × IsDone se
segment_send_fifo_lem_example =
    segment_send_fifo_lem busy
      (record { window = busy-IsWindow; fifo = wrapped-IsValid; far = omega arith })

busy-AreDistinct : AreDistinct (5 ∷ 6 ∷ [])
busy-AreDistinct = (refl, (refl, tt))

-- Nothing has arrived yet.
abbrev idle : Session
idle = record busy { recv_segments = []; reply_acks = [] }

-- Segment 6 comes before segment 5, and then the clock ticks.
overtake_stalls_example :
    (handle_all (handle idle (arrive 6 (1 ∷ []))) (tick ∷ arrive 5 (2 ∷ []) ∷ tick ∷ [])).recv_fifo
    ≡ wrapped
overtake_stalls_example =
    overtake_stalls idle 6 (1 ∷ []) (tick ∷ arrive 5 (2 ∷ []) ∷ tick ∷ []) refl (omega arith)
      (omega arith) (omega arith)

abbrev transport : Transport
transport = record {
  session = busy;
  key_send = magic 4;
  key_recv = magic 3;
  next_iv = magic 5;
  magic_disconnect = 0xffffffff00000001;
  your_ip = 1;
  your_port = 5004;
  your_tick = 0;
  result = some true;
}

-- A hash and a cipher for the tests.
abbrev zero_hash : List ℕ → List ℕ
zero_hash bs = magic 0

abbrev no_cipher : List ℕ → List ℕ → List ℕ
no_cipher key bs = bs

handle_udp_packet-IsAuthentic_example :
    (handle_udp_packet zero_hash no_cipher 1000 1 5005 (replicate 90 0 ++ (1 ∷ [])) transport
      ≡ transport)
    ⊎ IsAuthentic zero_hash no_cipher 1000 (replicate 90 0 ++ (1 ∷ [])) transport
handle_udp_packet-IsAuthentic_example =
    handle_udp_packet-IsAuthentic zero_hash no_cipher 1000 1 5005 (replicate 90 0 ++ (1 ∷ []))
      transport

handle_udp_packet-IsOrdered_example :
    IsOrdered
      (handle_udp_packet zero_hash no_cipher 1000 1 5005
        (replicate 90 0 ++ (1 ∷ []))
        transport).session
handle_udp_packet-IsOrdered_example =
    handle_udp_packet-IsOrdered zero_hash no_cipher 1000 1 5005 (replicate 90 0 ++ (1 ∷ []))
      transport
      (record {
        window = busy-IsWindow;
        distinct_acks = busy-AreDistinct;
        few_acks = omega arith;
        few_received = omega arith;
      })

-- The application takes one byte, and has closed the pair.
abbrev surroundings : Surroundings
surroundings = record {
  request_tail = [];
  request_iv = 0;
  taken = some 1 ∷ [];
  chunks = [];
  closed = true;
  interval = 17;
  farewells = λ k. record { tick = 1000; padding = 3; iv = 11 };
  draws = λ k. record { tick = 1000; padding = k; iv = 11 };
}

interrupt-Delivers_example :
    let se = (interrupt zero_hash no_cipher 12000 [] 1000 surroundings transport).0.session in
    (n : ℕ) × (contents se.recv_fifo ≡ drop n (contents wrapped ++ payloads busy.recv_segments))
    × (n ≤ taken_by surroundings.taken)
    × (se.recv_segments ≡ [])
    × (se.last_recv_complete_seq ≡ 4 + 2)
interrupt-Delivers_example =
    interrupt-Delivers zero_hash no_cipher 12000 [] 1000 surroundings transport refl (omega arith)
      wrapped-IsValid (omega arith) (refl, refl, refl, (refl, refl, refl, tt)) (omega arith)
