-- ===== src/Tests/Segments.antt =====
-- The sending of R-UDP segments on a concrete session.
use softether_android_client.Base.{
  take, ℕ, ◌≤◌, ◌≡◌, arith, refl, List, [], ◌∷◌, true, length, replicate, some, false, ◌+◌, Bool,
  ltb, ◌&&◌, All, ◌<◌, Bool-cases, inl, inr, subst, ltb→lt, ◌++◌,
}
use softether_android_client.Crypto.Rc4.{rc4_crypt}
use softether_android_client.Rudp.Fifo.{Fifo}
use softether_android_client.Rudp.Session.{Session, established}
use softether_android_client.Rudp.Packet.{
  Transport, handle_udp_packet, process_header, max_packet_size,
}
use softether_android_client.Rudp.Packet.Authentic.{IsOrdered}
use softether_android_client.Rudp.Framing.{icmp, strip, icmp_echo, icmp_checksum}
use softether_android_client.Rudp.Framing.Echo.{plain_header, strip-icmp_echo}
use softether_android_client.Rudp.Interrupt.{Surroundings, interrupt}
use softether_android_client.Rudp.Interrupt.Queues.{interrupt-IsOrdered}
use softether_android_client.Rudp.Send.{send_segment_now}
use softether_android_client.Rudp.Send.Fields.{IsSegment, header_of}
use softether_android_client.Rudp.Send.Arrives.{handle_udp_packet-send_segment_now}

abbrev twenty : ℕ → List ℕ
twenty b = replicate 20 b

abbrev empty_fifo : Fifo
empty_fifo = record { buf = replicate 8 0; cap = 8; head = 0; size = 0 }

abbrev session : Session
session = record {
  status = established;
  magic_req = twenty 1;
  magic_resp = twenty 2;
  next_send_seq = 8;
  last_recv_complete_seq = 4;
  latest_recv_my_tick = 900;
  current_rtt = 0;
  last_sent_tick = 950;
  next_keepalive_interval = 2500;
  created_tick = 0;
  send_segments = [];
  recv_segments = [];
  reply_acks = 5 ∷ 6 ∷ [];
  send_fifo = empty_fifo;
  recv_fifo = empty_fifo;
}

abbrev sender : Transport
sender = record {
  session = session;
  key_send = twenty 4;
  key_recv = twenty 3;
  next_iv = twenty 5;
  magic_disconnect = 0xffffffff00000001;
  your_ip = 1;
  your_port = 5004;
  your_tick = 0;
  result = some true;
}

abbrev receiver : Transport
receiver = record sender { key_recv = twenty 4; key_send = twenty 3 }

abbrev constant_hash : List ℕ → List ℕ
constant_hash bs = twenty 9

two_acks-IsSegment : IsSegment 1000 0 4 (5 ∷ 6 ∷ []) 8 (1 ∷ 2 ∷ [])
two_acks-IsSegment = record {
  now_fits = omega arith;
  your_tick_fits = omega arith;
  max_ack_fits = omega arith;
  acks_fit = (omega arith, (omega arith, tt));
  few_acks = omega arith;
  seq_fits = omega arith;
  short = omega arith;
}

handle_udp_packet-send_segment_now_example :
    (length (send_segment_now constant_hash rc4_crypt 1000 3 11 8 (1 ∷ 2 ∷ []) sender).1
      ≤ max_packet_size)
    × (handle_udp_packet constant_hash rc4_crypt 1010 1 5004
          (send_segment_now constant_hash rc4_crypt 1000 3 11 8 (1 ∷ 2 ∷ []) sender).1
          receiver
        ≡ process_header 5004 (header_of 1000 0 4 (5 ∷ 6 ∷ []) 8 (1 ∷ 2 ∷ [])) receiver)
handle_udp_packet-send_segment_now_example =
    handle_udp_packet-send_segment_now constant_hash (λ bs. refl) sender refl two_acks-IsSegment 3
      11 1010 1 5004 receiver refl (omega arith) refl

session-IsOrdered : IsOrdered session
session-IsOrdered = record {
  window = record { increasing = omega arith; bounded = omega arith };
  distinct_acks = (refl, (refl, tt));
  few_acks = omega arith;
  few_received = omega arith;
}

-- The application takes nothing and sends three bytes.
abbrev surroundings : Surroundings
surroundings = record {
  request_tail = [];
  request_iv = 0;
  taken = [];
  chunks = (1 ∷ 2 ∷ 3 ∷ []) ∷ [];
  closed = false;
  interval = 17;
  farewells = λ k. record { tick = 1000; padding = 3; iv = 11 };
  draws = λ k. record { tick = 1000; padding = k; iv = 11 };
}

interrupt-IsOrdered_example :
    IsOrdered (interrupt constant_hash rc4_crypt 12000 [] 1000 surroundings sender).0.session
    × ((interrupt constant_hash rc4_crypt 12000 [] 1000 surroundings sender).0.session.next_send_seq
        ≤ 8 + 64)
interrupt-IsOrdered_example =
    interrupt-IsOrdered constant_hash rc4_crypt 12000 [] 1000 surroundings sender session-IsOrdered
      (omega arith)

-- Bytes, as a test.
abbrev small : List ℕ → Bool
small [] = true
small (b ∷ bs) = ltb b 256 && small bs

small-All : (bs : List ℕ) → small bs ≡ true → All (λ b. b < 256) bs
small-All [] h = tt
small-All (b ∷ bs) h = elim (Bool-cases (ltb b 256)) [
  | inl e ↦ (ltb→lt b 256 e, small-All bs (subst (λ x. x && small bs ≡ true) e h))
  | inr e ↦ absurd (false≢true (subst (λ x. x && small bs ≡ true) e h))
]
  where
    false≢true : false ≡ true → ⊥
    false≢true e = cc

strip-icmp_echo_example :
    (icmp_checksum (icmp_echo constant_hash 1 2 3 4 (7 ∷ 8 ∷ 9 ∷ [])) ≡ 0)
    × (strip icmp
          (plain_header ∷ (replicate 19 0 ++ icmp_echo constant_hash 1 2 3 4 (7 ∷ 8 ∷ 9 ∷ [])))
        ≡ some (take {A = ℕ} 1307 (7 ∷ 8 ∷ 9 ∷ [])))
    × (3 ≤ 1307 → take {A = ℕ} 1307 (7 ∷ 8 ∷ 9 ∷ []) ≡ 7 ∷ 8 ∷ 9 ∷ [])
strip-icmp_echo_example =
    strip-icmp_echo constant_hash 1 2 3 4 (replicate 19 0) (7 ∷ 8 ∷ 9 ∷ []) refl
      (small-All (1 ∷ 2 ∷ 3 ∷ 4 ∷ (replicate 20 9 ++ (7 ∷ 8 ∷ 9 ∷ []))) refl) (omega arith) refl
