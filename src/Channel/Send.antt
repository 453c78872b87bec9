-- ===== src/Channel/Send.antt =====
-- The sending half of packet_handler.c and `softether_select_send_socket` of softether_protocol.c.
-- A socket is named by its index, 0 for the primary one and `k + 1` for `additional[k]`. What is
-- written is kept as a list of the bytes that went out with the index of the socket; `writes` says
-- what the calls that write to a socket give.
pub mod RoundRobin
pub mod Order
pub mod Failover
pub mod Accepted
use softether_android_client.Base.{
  ℕ, zero, suc, ◌+◌, ◌-◌, ◌*◌, ◌/◌, ◌%◌, ◌^◌, u64, Option, none, some, List, [], ◌∷◌, ◌++◌, ltb,
  leb, ◌==◌, ◌&&◌, ◌||◌, not, if◌then◌else◌, length, get_or, Bool, true, false,
}
use softether_android_client.Bytes.{write_u32}
use softether_android_client.Channel.Stream.{Write, write_all}
use softether_android_client.Channel.Inbox.{keep_alive_magic, or_else}
use softether_android_client.Channel.Connection.{
  Connection, TcpSock, State, is_connected, is_disconnecting, is_down, can_send, is_open, slot,
  retire,
}

-- What went out, socket by socket.
abbrev pub Sent : Type 0
Sent = List (ℕ × List ℕ)

abbrev pub additional_candidates : ℕ → List TcpSock → List ℕ
additional_candidates k [] = []
additional_candidates k (t ∷ ts) =
    let rest = additional_candidates (k + 1) ts in
    if t.active && can_send t.direction then (k + 1) ∷ rest else rest

abbrev pub primary_candidate : Connection → List ℕ
primary_candidate c =
    if is_open c.socket_fd && c.ssl && can_send c.primary_direction then 0 ∷ [] else []

abbrev pub candidates : Connection → List ℕ
candidates c = primary_candidate c ++ additional_candidates 0 c.additional

-- `softether_select_send_socket`
unfoldable pub select_send_socket : Connection → Connection × ℕ
select_send_socket c =
    let n = length (candidates c) in
    if n == 0 then (c, 0) else (
      record c { send_rr_idx = (c.send_rr_idx + 1) % n },
      get_or (candidates c) (c.send_rr_idx % n) 0,
    )

abbrev pub without : ℕ → List ℕ → List ℕ
without k [] = []
without k (i ∷ is) = let rest = without k is in if i == k then rest else i ∷ rest

-- The order in which a block is tried.
unfoldable pub send_order : ℕ → Connection → List ℕ
send_order best c =
    (if best == 0 then [] else best ∷ [])
    ++ (primary_candidate c ++ without best (additional_candidates 0 c.additional))

-- `data_write_all`: the loops of the primary socket look at the state of the connection first.
unfoldable pub data_write_all : Connection → List ℕ → List Write → List ℕ × Bool
data_write_all c bs rs =
    if is_down c.state && ltb 0 (length bs) then ([], false) else write_all c.use_ssl_data bs rs

-- Whether the socket of an index can be written to, and writing to it.
unfoldable pub usable : ℕ → Connection → Bool
usable zero c = c.ssl && is_open c.socket_fd
usable (suc k) c = let t = slot k c in t.active && t.ssl && is_open t.socket_fd

unfoldable pub write_to : ℕ → Connection → List ℕ → List Write → List ℕ × Bool
write_to zero c bs rs = data_write_all c bs rs
write_to (suc k) c bs rs = write_all c.use_ssl_data bs rs

-- A write to the primary socket that fails changes nothing.
unfoldable pub write_failed : ℕ → Connection → Connection
write_failed zero c = c
write_failed (suc k) c = retire k c

module _ (block : List ℕ) (writes : ℕ → List Write) where
  -- The loop over the candidates, and whether one took the block.
  unfoldable pub try_candidates : List ℕ → Connection → (Connection × Sent) × Bool
  try_candidates [] c = ((c, []), false)
  try_candidates (i ∷ is) c =
      let (sent, ok) = write_to i c block (writes i) in
      let skip = try_candidates is c in
      let ((c', log), done) = try_candidates is (write_failed i c) in
      if not (usable i c)
      then skip
      else if ok
      then ((c, (i, sent) ∷ []), true)
      else ((c', (i, sent) ∷ log), done)

  -- `softether_transmit_block_nolock`: false is -1.
  unfoldable pub transmit_block_nolock : Connection → (Connection × Sent) × Bool
  transmit_block_nolock c =
      let (c', best) = select_send_socket c in
      if ltb (length block) 8
      then ((c, []), false)
      else if is_disconnecting c.state || not c.ssl
      then ((c, []), false)
      else try_candidates (send_order best c') c'

-- `softether_send_keepalive_sock` on the socket of an index, with what `rand()` gives for the size
-- and for the bytes. The second result is the size that it returns, or `none` for -1.
unfoldable pub keepalive_packet : ℕ → (ℕ → ℕ) → List ℕ
keepalive_packet size rand =
    write_u32 keep_alive_magic ++ (write_u32 (size % 64) ++ random_bytes (size % 64) rand)
  where
    random_bytes : ℕ → (ℕ → ℕ) → List ℕ
    random_bytes zero rand = []
    random_bytes (suc n) rand = rand 0 % 256 ∷ random_bytes n (λ i. rand (i + 1))

unfoldable pub send_keepalive_sock :
    (ssl : Bool) → ℕ → ℕ → (ℕ → ℕ) → List Write → Connection → Sent × Option ℕ
send_keepalive_sock ssl i size rand rs c =
    let pkt = keepalive_packet size rand in
    let (sent, ok) = write_all c.use_ssl_data pkt rs in
    if not ssl || not (is_connected c.state)
    then ([], none)
    else ((i, sent) ∷ [], if ok then some (length pkt) else none)

-- `softether_send_keepalive`
unfoldable pub send_keepalive : ℕ → (ℕ → ℕ) → List Write → Connection → Sent × Option ℕ
send_keepalive size rand rs c = send_keepalive_sock c.ssl 0 size rand rs c

-- How long after a sweep the next one is due.
unfoldable pub keepalive_span : ℕ → ℕ
keepalive_span server_timeout =
    let timeout = if server_timeout == 0 then 30000 else server_timeout in
    let interval = timeout / 3 in
    if ltb interval 2000 then 2000 else if ltb 12000 interval then 12000 else interval

module _ (sizes : ℕ → ℕ) (rands : ℕ → ℕ → ℕ) (writes : ℕ → List Write) (c : Connection) where
  abbrev keepalive_on : ℕ → Bool → Sent
  keepalive_on i ssl = (send_keepalive_sock ssl i (sizes i) (rands i) (writes i) c).0

  unfoldable pub keepalive_additional : ℕ → List TcpSock → Sent
  keepalive_additional k [] = []
  keepalive_additional k (t ∷ ts) =
      let rest = keepalive_additional (k + 1) ts in
      if t.active && can_send t.direction && (t.ssl && is_open t.socket_fd)
      then keepalive_on (k + 1) t.ssl ++ rest
      else rest

  -- `softether_send_keepalive_all`: false is -1.
  unfoldable pub send_keepalive_all : ℕ → (Connection × Sent) × Bool
  send_keepalive_all now =
      let primary =
        if is_open c.socket_fd && c.ssl && can_send c.primary_direction
        then keepalive_on 0 c.ssl
        else [] in
      if not c.ssl || not (is_connected c.state)
      then ((c, []), false)
      else if c.next_tcp_keepalive_time == 0
      then ((record c { next_tcp_keepalive_time = now }, []), true)
      else if ltb now c.next_tcp_keepalive_time
      then ((c, []), true)
      else (
        (
          record c { next_tcp_keepalive_time = u64 (now + keepalive_span c.server_timeout) },
          primary ++ keepalive_additional 0 c.additional,
        ),
        true,
      )

abbrev pub fits_in : Option ℕ → ℕ → Bool
fits_in none n = false
fits_in (some cap) n = leb n cap

-- The payload of a block: `compress` is what `compress_data` gives.
unfoldable pub send_payload : (List ℕ → Option (List ℕ)) → Connection → List ℕ → List ℕ
send_payload compress c payload =
    if c.server_use_compress && ltb 1 (length payload)
    then or_else (compress payload) payload
    else payload

-- A block as it stands in the staging buffer.
unfoldable pub data_block : List ℕ → List ℕ
data_block payload = write_u32 1 ++ (write_u32 (length payload) ++ payload)

module _ (writes : ℕ → List Write) where
  -- The socket is the selected one, and there is no failover.
  unfoldable pub write_selected : List ℕ → ℕ → Connection → (Connection × Sent) × Option ℕ
  write_selected block i c =
      let (sent, ok) = write_to i c block (writes i) in
      let ts = slot (i - 1) c in
      if ltb 0 i && not (ts.active && ts.ssl)
      then ((c, []), none)
      else ((c, (i, sent) ∷ []), if ok then some (length block) else none)

  -- `softether_send_packet` with CMD_DATA. The result is the size that it returns, or `none` for -1.
  unfoldable pub send_packet :
      (List ℕ → Option (List ℕ)) → List ℕ → Connection → (Connection × Sent) × Option ℕ
  send_packet compress payload c =
      let bs = send_payload compress c payload in
      let (c', i) = select_send_socket c in
      if is_down c.state || not c.ssl
      then ((c, []), none)
      else if not (fits_in c.send_block_cap (8 + length bs))
      then ((c, []), none)
      else write_selected (data_block bs) i c'
