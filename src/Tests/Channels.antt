-- ===== src/Tests/Channels.antt =====
-- Runs of the data channel.
use softether_android_client.Base.{
  ◌^◌, ℕ, zero, suc, ◌≡◌, ◌≤◌, ◌<◌, refl, arith, none, some, List, [], ◌∷◌, ◌++◌, true, false, not,
  ◌&&◌, ◌||◌, u32, ltb, length, drop, min,
}
use softether_android_client.Bytes.{write_u32}
use softether_android_client.Accel.Context.{Ring}
use softether_android_client.Channel.Stream.{
  Arrival, got, tls, raw_fd, read_all, Write, took, full, broken, write_all,
}
use softether_android_client.Channel.Stream.Flow.{IsFlowing, content, Outcome, write_all-Outcome}
use softether_android_client.Channel.Inbox.{Inbox, done, keepalive, read_message, keep_alive_magic}
use softether_android_client.Channel.Inbox.Queue.{IsRing, waiting}
use softether_android_client.Channel.Inbox.Blocks.{blocks, message}
use softether_android_client.Channel.Inbox.Message.{
  Takes, keep, queueable, is_full, read_message-Takes,
}
use softether_android_client.Channel.Inbox.Fragments.{read_message_fragments}
use softether_android_client.Channel.Connection.{
  Connection, TcpSock, connected, both, client_to_server, unused, IsCounted, is_disconnecting,
}
use softether_android_client.Channel.Send.{
  candidates, select_send_socket, transmit_block_nolock, data_block, send_packet, send_payload,
  write_selected, write_to, data_write_all,
}
use softether_android_client.Channel.Send.RoundRobin.{after, select_send_socket_turns}
use softether_android_client.Channel.Send.Order.{any}
use softether_android_client.Channel.Send.Failover.{
  accepts, Tried, transmit_block_nolock_lem, transmit_block_nolock-Tried,
}
use softether_android_client.Channel.Send.Accepted.{
  sent_bytes, read_message-keepalive, send_packet-queued,
}
use softether_android_client.Channel.Receive.{Library, Round, ready, Meets}
use softether_android_client.Channel.Receive.Counts.{IsValid}
use softether_android_client.Channel.Calls.{Receiving}
use softether_android_client.Channel.Sound.Calls.{
  Call, sends, receives, receives_raw, receives_batch, resolves, reads_data, connects_additional,
  disconnects, run, run-IsValid,
}
use softether_android_client.Channel.Gateway.{Resolving}
use softether_android_client.Channel.Links.{Accepted}
use softether_android_client.Channel.Data.{Reading}
use softether_android_client.Channel.Packet.{is_negative, data_of, receive_packet_from}
use softether_android_client.Channel.Packet.First.{first_of, receive_packet_from-first}
use softether_android_client.Channel.Ethernet.{
  Sending, take_ip, packet, ip_frame, arp_request, arp_reply, is_arp, is_arp_answer, resolved,
  batch_loop,
}
use softether_android_client.Channel.Ethernet.Arp.{IsMac, arp_reply-arp_request}
use softether_android_client.Channel.Ethernet.Batch.{scan, size_of, batch_loop-scan}
use softether_android_client.Channel.Ethernet.Tunnel.{take_ip-ip_frame}

abbrev empty_ring : Ring
empty_ring = record { slots = λ i. []; head = 0; tail = 0; count = 0 }

abbrev quiet : Inbox
quiet = record { queue = empty_ring; rx_skipped_blocks = 0 }

empty_ring-IsRing : IsRing empty_ring
empty_ring-IsRing = record { head_within = omega arith; tail_at = refl; few = omega arith }

abbrev mac_a : List ℕ
mac_a = 2 ∷ (0 ∷ (0 ∷ (0 ∷ (0 ∷ (1 ∷ [])))))

mac_a-IsMac : IsMac mac_a
mac_a-IsMac = record { b0 = 2; b1 = 0; b2 = 0; b3 = 0; b4 = 0; b5 = 1; bytes = refl }

abbrev uplink : TcpSock
uplink = record {
  socket_fd = some 8;
  ssl_ctx = true;
  ssl = true;
  direction = client_to_server;
  last_recv = 0;
  active = true;
}

-- A connection with one additional socket for sending.
abbrev open_connection : Connection
open_connection = record {
  socket_fd = some 7;
  ssl = true;
  state = connected;
  server_use_compress = false;
  server_timeout = 0;
  use_ssl_data = true;
  session_established = true;
  client_mac = mac_a;
  gateway_mac = mac_a;
  gateway_mac_resolved = true;
  gateway_ip = 1;
  assigned_ip = 2;
  inbox = quiet;
  rudp = none;
  rudp_enabled = false;
  additional = uplink ∷ (unused ∷ []);
  num_additional = 1;
  max_connection = 2;
  next_connect_time = 0;
  additional_failed_count = 0;
  additional_connecting = false;
  additional_connect_slot = none;
  primary_direction = both;
  send_rr_idx = 0;
  next_tcp_keepalive_time = 0;
  send_block_cap = some 65557;
  stats_tx_packets = 0;
  stats_tx_bytes = 0;
  stats_rx_packets = 0;
  stats_rx_bytes = 0;
}

-- One block of three bytes, in two pieces.
abbrev frame : List ℕ
frame = 1 ∷ (2 ∷ (3 ∷ []))

abbrev pieces : List Arrival
pieces = got (0 ∷ (0 ∷ (0 ∷ (1 ∷ (0 ∷ []))))) ∷ (got (0 ∷ (0 ∷ (3 ∷ (1 ∷ (2 ∷ (3 ∷ [])))))) ∷ [])

abbrev whole : List Arrival
whole = got (0 ∷ (0 ∷ (0 ∷ (1 ∷ (0 ∷ (0 ∷ (0 ∷ (3 ∷ (1 ∷ (2 ∷ (3 ∷ []))))))))))) ∷ []

bytes : content pieces ≡ message (frame ∷ []) ++ []
unfolding message blocks write_u32
bytes = refl

read_message-Takes_example :
    ((read_message (read_all tls) none quiet pieces).0.0 ≡ done)
    × Takes none 64
        (keep queueable (frame ∷ []))
        (keep is_full (frame ∷ []))
        quiet
        (read_message (read_all tls) none quiet pieces).0.1
    × (content (read_message (read_all tls) none quiet pieces).1 ≡ [])
read_message-Takes_example =
    read_message-Takes tls none (frame ∷ []) quiet pieces [] (omega arith, tt) (omega arith)
      (omega arith) empty_ring-IsRing (omega arith) tt bytes

read_message_fragments_example :
    ((read_message (read_all tls) none quiet pieces).0
      ≡ (read_message (read_all raw_fd) none quiet whole).0)
    × (content (read_message (read_all tls) none quiet pieces).1
        ≡ content (read_message (read_all raw_fd) none quiet whole).1)
read_message_fragments_example =
    read_message_fragments tls raw_fd none quiet pieces whole tt tt refl

write_all-Outcome_example :
    Outcome (1 ∷ (2 ∷ (3 ∷ []))) (write_all false frame (took 1 ∷ (full ∷ (took 9 ∷ []))))
write_all-Outcome_example = write_all-Outcome false frame (took 1 ∷ (full ∷ (took 9 ∷ [])))

long_keepalive-bytes :
    content (got (write_u32 keep_alive_magic ++ (write_u32 3 ++ frame)) ∷ [])
    ≡ write_u32 keep_alive_magic ++ (write_u32 3 ++ (frame ++ []))
unfolding write_u32
long_keepalive-bytes = refl

keepalive_flows : IsFlowing (got (write_u32 keep_alive_magic ++ (write_u32 3 ++ frame)) ∷ [])
unfolding write_u32
keepalive_flows = tt

read_message-keepalive_example :
    ((read_message
        (read_all tls)
        none
        quiet
        (got (write_u32 keep_alive_magic ++ (write_u32 3 ++ frame)) ∷ [])).0
      ≡ (keepalive, quiet))
    × (content
          (read_message
            (read_all tls)
            none
            quiet
            (got (write_u32 keep_alive_magic ++ (write_u32 3 ++ frame)) ∷ [])).1
        ≡ drop (min 512 3) frame ++ [])
read_message-keepalive_example =
    read_message-keepalive tls none frame quiet
      (got (write_u32 keep_alive_magic ++ (write_u32 3 ++ frame)) ∷ []) [] (omega arith)
      keepalive_flows long_keepalive-bytes

-- The primary socket fails in the middle of a block, the other takes it.
abbrev block : List ℕ
block = 0 ∷ (0 ∷ (0 ∷ (1 ∷ (0 ∷ (0 ∷ (0 ∷ (1 ∷ (9 ∷ []))))))))

abbrev failing : ℕ → List Write
failing zero = took 4 ∷ (broken ∷ [])
failing (suc i) = took 9 ∷ []

transmit_block_nolock_lem_example : (transmit_block_nolock block failing open_connection).1 ≡ (
    not (ltb 9 8)
    && (not (is_disconnecting connected || not true)
        && any (accepts block failing open_connection) (candidates open_connection)))
transmit_block_nolock_lem_example = transmit_block_nolock_lem block failing open_connection

transmit_block_nolock-Tried_example :
    Tried block
      (transmit_block_nolock block failing open_connection).0.1
      (transmit_block_nolock block failing open_connection).1
    × IsCounted (transmit_block_nolock block failing open_connection).0.0
transmit_block_nolock-Tried_example = transmit_block_nolock-Tried block failing open_connection refl

select_send_socket_turns_example :
    (k : ℕ) × (k < 2) × ((select_send_socket (after k open_connection)).1 ≡ 1)
select_send_socket_turns_example = select_send_socket_turns open_connection 1 (omega arith)

sent : (send_packet (λ i. took 11 ∷ []) (λ bs. none) frame open_connection).1 ≡ some 11
unfolding send_packet write_selected select_send_socket write_to data_write_all write_all data_block
    send_payload write_u32
sent = refl

sent-bytes :
    content whole
    ≡ sent_bytes (send_packet (λ i. took 11 ∷ []) (λ bs. none) frame open_connection).0.1 ++ []
unfolding send_packet write_selected select_send_socket write_to data_write_all write_all data_block
    send_payload write_u32
sent-bytes = refl

payload-whole : send_payload (λ bs. none) open_connection frame ≡ frame
unfolding send_payload
payload-whole = refl

send_packet-queued_example :
    (length (send_packet (λ i. took 11 ∷ []) (λ bs. none) frame open_connection).0.1 ≡ 1)
    × ((read_message (read_all raw_fd) none quiet whole).0.0 ≡ done)
    × (waiting (read_message (read_all raw_fd) none quiet whole).0.1.queue ≡ [] ++ (frame ∷ []))
    × (content (read_message (read_all raw_fd) none quiet whole).1 ≡ [])
send_packet-queued_example =
    send_packet-queued (λ bs. none) (λ i. took 11 ∷ []) frame open_connection 11 raw_fd none quiet
      whole [] sent payload-whole (unfold send_payload in omega arith)
      (unfold send_payload in omega arith) empty_ring-IsRing (omega arith) (omega arith) tt
      sent-bytes

abbrev library : Library
library = record {
  sha1 = λ bs. bs;
  aead = λ k iv bs. (bs, []);
  aead_open = λ k iv bs mac. none;
  compress = λ bs. none;
  uncompress = λ bs. none;
}

abbrev idle : Round
idle = record {
  now = 5;
  chance = record { padding = 0; interval = 0; tick = 5; sent = true };
  datagrams = [];
}

-- The primary socket has a message to read.
abbrev meets : Meets
meets = record {
  first = idle;
  second = idle;
  udp_fd = false;
  udp = record { readable = false; error = false; invalid = false };
  pending = λ i. false;
  polled = ready (λ i. record { readable = true; error = false; invalid = false });
  state_after = connected;
  tick = 5;
  incoming = λ i. pieces;
  size = 0;
  rand = λ i. 0;
  writes = [];
}

open_connection-IsValid : IsValid open_connection
open_connection-IsValid = record { ring = empty_ring-IsRing; counted = refl }

abbrev sending : Sending
sending = record { round = idle; now = 5; rand = 0; sent = true; writes = λ i. took 1000 ∷ [] }

-- An upkeep that finds the additional socket closed at the other end.
abbrev receiving : Receiving
receiving = record {
  upkeep = record {
    sizes = λ i. 0;
    rands = λ i j. 0;
    writes = λ i. [];
    now = 5;
    connect_now = 5;
    created = false;
    hung_up = λ i. true;
  };
  meets = meets;
  answers = λ i. sending;
}

abbrev resolving : Resolving
resolving = record { looks = λ a i. meets; requests = λ a. sending }

abbrev reading : Reading
reading = record {
  first = idle;
  second = idle;
  readable = false;
  incoming = pieces;
  size = 0;
  rand = λ i. 0;
  writes = [];
}

-- A socket that is added between the calls.
abbrev added : Accepted
added = record { fd = 9; direction = both; tick = 5 }

abbrev calls : List Call
calls =
    sends sending frame
    ∷ (receives_raw meets 1500
        ∷ (connects_additional (some added)
            ∷ (receives receiving 1500
                ∷ (receives_batch receiving 1500 8
                    ∷ (resolves resolving 1
                        ∷ (reads_data reading 1500 ∷ (disconnects true ∷ [])))))))

run-IsValid_example : IsValid (run (λ bs. none) (λ n bs. none) library calls open_connection)
run-IsValid_example =
    run-IsValid (λ bs. none) (λ n bs. none) library calls open_connection open_connection-IsValid

receive_packet_from-first_example :
    ((receive_packet_from (read_all tls) none 8 pieces).0
      ≡ some (data_of (first_of none 8 (frame ∷ []) none) (u32 (length (message (frame ∷ []))))))
    × (content (receive_packet_from (read_all tls) none 8 pieces).1 ≡ [])
    × (length (message (frame ∷ [])) < 2 ^ 31
        → u32 (length (message (frame ∷ []))) ≡ length (message (frame ∷ [])))
    × (2 ^ 31 ≤ length (message (frame ∷ []))
        → length (message (frame ∷ [])) < 2 ^ 32
        → is_negative (u32 (length (message (frame ∷ [])))) ≡ true)
receive_packet_from-first_example =
    receive_packet_from-first tls none 8 (frame ∷ []) pieces [] (omega arith, tt) (omega arith) tt
      bytes

-- A queue with an IP frame before a frame that is too short.
abbrev ip_slots : ℕ → List ℕ
ip_slots zero = mac_a ++ (mac_a ++ (8 ∷ (0 ∷ (0x45 ∷ (0 ∷ [])))))
ip_slots (suc i) = frame

abbrev loaded : Connection
loaded = record open_connection {
  inbox = record {
    queue = record { slots = ip_slots; head = 0; tail = 2; count = 2 };
    rx_skipped_blocks = 0;
  };
}

batch_loop-scan_example :
    let r = batch_loop (λ bs. none) library 1500 2 (λ k. sending) 0 8 loaded in
    (r.1 ≡ (scan 1500 0 8 (ip_slots 0 ∷ (frame ∷ []))).0)
    × (waiting r.0.0.inbox.queue ≡ (scan 1500 0 8 (ip_slots 0 ∷ (frame ∷ []))).1)
    × IsRing r.0.0.inbox.queue
    × (size_of r.1 ≤ 1500)
    × (length r.1 ≤ 8)
batch_loop-scan_example =
    batch_loop-scan (λ bs. none) library 1500 (λ k. sending) 8 loaded
      record { head_within = omega arith; tail_at = refl; few = omega arith }

arp_reply-arp_request_example :
    (is_arp (arp_request open_connection 2) ≡ true)
    × ((reply : List ℕ) × (arp_reply open_connection (arp_request open_connection 2) ≡ some reply)
        × (is_arp_answer 2 reply ≡ true)
        × (length reply ≡ 42)
        × ((resolved reply open_connection).gateway_mac ≡ mac_a))
arp_reply-arp_request_example =
    arp_reply-arp_request open_connection open_connection mac_a-IsMac mac_a-IsMac
      (λ e. absurd (omega (arith, e))) (omega arith)

-- The first bytes of an IPv4 packet.
abbrev ip_packet : List ℕ
ip_packet = 0x45 ∷ (0 ∷ (0 ∷ []))

abbrev tunnelled : List Arrival
tunnelled =
    got (0 ∷ (0 ∷ (0 ∷ (1 ∷ (0 ∷ (0 ∷ (0 ∷ (17 ∷ []))))))))
    ∷ (got (mac_a ++ (mac_a ++ (8 ∷ (0 ∷ ip_packet)))) ∷ [])

tunnelled-bytes : content tunnelled ≡ data_block (ip_frame open_connection ip_packet) ++ []
unfolding data_block ip_frame write_u32
tunnelled-bytes = refl

take_ip-ip_frame_example :
    ((read_message (read_all tls) none quiet tunnelled).0.0 ≡ done)
    × ((take_ip
          (λ bs. none)
          library
          sending
          1500
          (record open_connection {
            inbox = (read_message (read_all tls) none quiet tunnelled).0.1;
          })).1
        ≡ packet ip_packet)
    × (content (read_message (read_all tls) none quiet tunnelled).1 ≡ [])
take_ip-ip_frame_example =
    take_ip-ip_frame open_connection open_connection ip_packet tls tunnelled [] (λ bs. none) library
      sending 1500 mac_a-IsMac mac_a-IsMac (omega arith) (omega arith) (omega arith)
      empty_ring-IsRing refl (omega arith) tt tunnelled-bytes
