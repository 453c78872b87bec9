-- ===== src/Dhcp/Exchange.antt =====
-- `wait_dhcp_response` and `softether_do_dhcp` of dhcp_client.c. What the sockets give is a list of
-- rounds, and what `softether_send_raw` and `rand()` give are lists too.
pub mod Patience
pub mod Frugal
use softether_android_client.Base.{
  ℕ, zero, suc, ◌+◌, ◌*◌, Option, none, some, List, [], ◌∷◌, ◌++◌, ltb, ◌==◌, if◌then◌else◌, Bool,
  true, false,
}
use softether_android_client.Dhcp.Parse.{Lease, Answer, parse_dhcp_response}
use softether_android_client.Dhcp.Build.{
  dhcp_discover, dhcp_offer, dhcp_request, dhcp_ack, dhcp_nak, build_dhcp_frame,
}

-- One round of the loop: 100 ms in which no frame came, whichever branch waited; `poll` or
-- `softether_receive_raw` failed; or a frame.
pub data Round : Type 0 where
  silent : Round
  failing : Round
  frame : List ℕ → Round

-- What `wait_dhcp_response` returns: a message type, 0 at the time-out or -1. `pending` is a loop
-- that still runs when the rounds are over, `faulty` a read outside a frame.
pub data Waited : Type 0 where
  answered : ℕ → Waited
  timed_out : Waited
  broken : Waited
  pending : Waited
  faulty : Waited

-- DHCP_TIMEOUT_MS
abbrev pub dhcp_timeout_ms : ℕ
dhcp_timeout_ms = 5000

abbrev pub poll_interval : ℕ
poll_interval = 100

-- What is returned, what was stored, and the rounds that are left.
abbrev pub Wait : Type 0
Wait = Waited × Lease × List Round

-- What the parser says of a frame; `more` goes on with the loop.
abbrev pub take_answer : Option Answer → Lease → List Round → (Lease → Wait) → Wait
take_answer none r rest more = (faulty, r, rest)
take_answer (some (zero, r')) r rest more = more r'
take_answer (some (suc n, r')) r rest more = (answered (suc n), r', rest)

-- The loop; with no round left the caller still waits. The lease carries `server_id`.
unfoldable pub wait_dhcp_response : ℕ → List ℕ → ℕ → ℕ → List Round → Lease → Wait
wait_dhcp_response xid mac timeout_ms elapsed [] r =
    if ltb elapsed timeout_ms then (pending, r, []) else (timed_out, r, [])
wait_dhcp_response xid mac timeout_ms elapsed (silent ∷ rest) r = elim (ltb elapsed timeout_ms) [
  | false ↦ (timed_out, r, silent ∷ rest)
  | true ↦ wait_dhcp_response xid mac timeout_ms (elapsed + poll_interval) rest r
]
wait_dhcp_response xid mac timeout_ms elapsed (failing ∷ rest) r =
    if ltb elapsed timeout_ms then (broken, r, rest) else (timed_out, r, failing ∷ rest)
wait_dhcp_response xid mac timeout_ms elapsed (frame bs ∷ rest) r = elim (ltb elapsed timeout_ms) [
  | false ↦ (timed_out, r, frame bs ∷ rest)
  | true ↦
      take_answer (parse_dhcp_response bs xid mac r) r rest
        (wait_dhcp_response xid mac timeout_ms elapsed rest)
]

-- What the exchange meets, and the frames that it has sent.
pub record World : Type 0 where
  pub rounds : List Round
  pub send_results : List Bool
  pub randoms : List (ℕ × ℕ)
  pub sent : List (List ℕ)

-- `softether_do_dhcp` returned 0 with a lease, or -1, or it still runs.
pub data Outcome : Type 0 where
  leased : Lease → Outcome
  refused : Outcome
  running : Outcome

-- DHCP_MAX_FRAME
abbrev pub dhcp_max_frame : ℕ
dhcp_max_frame = 600

abbrev pub head_or {ℓ} : {A : Type ℓ} → A → List A → A
head_or d [] = d
head_or d (x ∷ xs) = x

abbrev pub tail_of {ℓ} : {A : Type ℓ} → List A → List A
tail_of [] = []
tail_of (x ∷ xs) = xs

-- A frame is built and sent, or the exchange ends; `more` goes on.
abbrev pub send_built : Option (List ℕ) → World → (World → Outcome × World) → Outcome × World
send_built none w more = (refused, w)
send_built (some bs) w more = elim (head_or true w.send_results) [
  | false ↦
      (refused, record w { send_results = tail_of w.send_results; randoms = tail_of w.randoms })
  | true ↦ more (record w {
    send_results = tail_of w.send_results;
    randoms = tail_of w.randoms;
    sent = w.sent ++ (bs ∷ []);
  })
]

-- What the exchange does with what a wait returned: it goes on with a message, tries again at the
-- time-out and ends otherwise.
abbrev pub after_wait :
    World
    → Wait
    → (ℕ → Lease → World → Outcome × World)
    → (Lease → World → Outcome × World)
    → Outcome × World
after_wait w (answered n, r, rest) more again = more n r (record w { rounds = rest })
after_wait w (timed_out, r, rest) more again = again r (record w { rounds = rest })
after_wait w (broken, r, rest) more again = (refused, record w { rounds = rest })
after_wait w (pending, r, rest) more again = (running, record w { rounds = rest })
after_wait w (faulty, r, rest) more again = (refused, record w { rounds = rest })

abbrev pub frame_of : ℕ → List ℕ → ℕ → ℕ → ℕ → World → Option (List ℕ)
frame_of xid mac msg_type requested_ip server_id w =
    let rs = head_or (0, 0) w.randoms in
    build_dhcp_frame dhcp_max_frame mac xid msg_type requested_ip server_id rs.0 rs.1

-- The REQUEST for an offer and its answer; `again` is the next attempt.
unfoldable pub request_offer :
    ℕ → List ℕ → Lease → World → (Lease → World → Outcome × World) → Outcome × World
request_offer xid mac r w again =
    send_built (frame_of xid mac dhcp_request r.assigned_ip r.server_id w) w λ w'.
      after_wait w' (wait_dhcp_response xid mac dhcp_timeout_ms 0 w'.rounds r)
        (λ n r' w''.
          if n == dhcp_ack
          then (leased r', w'')
          else if n == dhcp_nak
          then (refused, w'')
          else again r' w'')
        again

-- The loop over the attempts that are left.
unfoldable pub attempts : ℕ → ℕ → List ℕ → Lease → World → Outcome × World
attempts zero xid mac r w = (refused, w)
attempts (suc n) xid mac r w = send_built (frame_of xid mac dhcp_discover 0 0 w) w λ w'.
    after_wait w' (wait_dhcp_response xid mac dhcp_timeout_ms 0 w'.rounds r)
      (λ m r' w''.
        if m == dhcp_offer
        then request_offer xid mac r' w'' (attempts n xid mac)
        else attempts n xid mac r' w'')
      (attempts n xid mac)

abbrev pub no_lease : Lease
no_lease = record {
  assigned_ip = 0;
  subnet_mask = 0;
  gateway = 0;
  dns_server = 0;
  dns_server2 = 0;
  lease_time = 0;
  server_id = 0;
}

-- `softether_do_dhcp` on a connection; DHCP_MAX_RETRIES is 3.
unfoldable pub do_dhcp : Bool → ℕ → List ℕ → World → Outcome × World
do_dhcp connected xid mac w = if connected then attempts 3 xid mac no_lease w else (refused, w)
