-- ===== src/Tests/Frames.antt =====
-- DHCP frames and NAT traversal rounds on concrete data.
use softether_android_client.Base.{
  ℕ, ◌+◌, ◌≤◌, ◌≡◌, arith, refl, none, some, List, [], ◌∷◌, ◌++◌, length, replicate, codes, false,
}
use softether_android_client.Bytes.{write_u32, read_u32, fold_bytes, write_u64}
use softether_android_client.Pack.Element.{int, int64, str, encode_all}
use softether_android_client.Pack.Reader.{
  pack_get_int64, pack_get_int, pack_get_str, get_loop, match_element, skip_value, skip_values,
  skip_bytes, read_string, read_uint32, read_uint64, c_string, list_eq,
}
use softether_android_client.Pack.Writer.{Memory}
use softether_android_client.Dhcp.Parse.{Lease, parse_dhcp_response}
use softether_android_client.Dhcp.Bounds.{Returns, parse_dhcp_response-Returns}
use softether_android_client.NatT.Response.{NatResult, parse_response, success}
use softether_android_client.NatT.Connect.{Round, Attempt, Setup, rounds}
use softether_android_client.NatT.Usable.{IsUsable, parse_response-IsUsable}
use softether_android_client.NatT.Once.{attempt_of, rounds_send_once}

abbrev no_lease : Lease
no_lease = record {
  assigned_ip = 0;
  subnet_mask = 0;
  gateway = 0;
  dns_server = 0;
  dns_server2 = 0;
  lease_time = 0;
  server_id = 0;
}

-- An Ethernet frame that carries IPv4 with the longest header, and nothing of use.
abbrev odd_frame : List ℕ
odd_frame = replicate 12 0 ++ ((8 ∷ 0 ∷ 79 ∷ []) ++ (replicate 8 0 ++ (17 ∷ replicate 270 0)))

parse_dhcp_response-Returns_example :
    Returns (parse_dhcp_response odd_frame 7 (replicate 6 2) no_lease)
parse_dhcp_response-Returns_example =
    parse_dhcp_response-Returns odd_frame 7 (replicate 6 2) no_lease (omega arith)

abbrev no_result : NatResult
no_result = record { result_ip = 0; result_port = 0; same_lan = 0; udp_fd = none; error_code = 1 }

-- An answer of the relay for transaction 5: the peer is at 1.2.3.4, port 4321.
abbrev answer_body : List ℕ
answer_body =
    write_u32 5
    ++ encode_all (
        record { name = codes "opcode"; value = str (codes "nat_t_connect_request") }
        ∷ record { name = codes "tran_id"; value = int64 5 }
        ∷ record { name = codes "ok"; value = int 1 }
        ∷ record { name = codes "result_ip"; value = str (codes "1.2.3.4") }
        ∷ record { name = codes "result_port"; value = int 4321 }
        ∷ [])

abbrev peer : NatResult
peer = record { result_ip = 77; result_port = 4321; same_lan = 0; udp_fd = none; error_code = 0 }

answered : parse_response (λ s. some 77) answer_body 5 no_result ≡ success peer
unfolding parse_response pack_get_int64 pack_get_int pack_get_str get_loop match_element skip_value
    skip_values skip_bytes read_string read_uint32 read_uint64 c_string list_eq write_u32 write_u64
    read_u32 fold_bytes
answered = refl

parse_response-IsUsable_example :
    IsUsable peer × (pack_get_int64 (some answer_body) (some (codes "tran_id")) ≡ some 5)
parse_response-IsUsable_example =
    parse_response-IsUsable answer_body no_result (λ s. some 77) 5 peer answered

abbrev plain_memory : Memory
plain_memory = record { malloc = λ n. some (replicate n 0); realloc = λ b n. none }

abbrev call : Setup
call = record {
  relay_ip = 9;
  fd = 3;
  tran_id = 5;
  giveup_tick = 1000 + 12000;
  dest_ip = codes "1.2.3.4";
  svc_name = codes "SoftEther_VPN";
}

abbrev fresh : Attempt
fresh = record {
  next_send_tick = 0;
  current_cookie = 0;
  num_tries = 0;
  result = no_result;
  requests = [];
}

abbrev quiet : ℕ → Round
quiet now = record { now = now; cancelled = false; datagrams = [] }

-- A relay that is silent for twelve seconds gets one request.
rounds_send_once_example :
    length
      (attempt_of (
        rounds plain_memory
          (λ s. none)
          call
          (quiet 1000 ∷ quiet 5000 ∷ quiet 12999 ∷ [])
          fresh)).requests
    ≤ 1
rounds_send_once_example =
    rounds_send_once plain_memory (λ s. none) call 1000 (omega arith) (omega arith)
      (quiet 1000 ∷ quiet 5000 ∷ quiet 12999 ∷ []) fresh (omega arith) refl refl
