-- ===== src/Rudp/Session.antt =====
-- `rt_session_t` of rudp_transport.c and the functions that work on it. The worker thread alone
-- runs them. An array with its count is a list, and the count its length; the arrays have 64
-- places, which the guards of the functions keep to. Randomness and the sockets are arguments.
pub mod Clock
pub mod Window
pub mod Segmenting
pub mod Acks
pub mod Delivery
pub mod Stall
pub mod Timing
use softether_android_client.Base.{
  ℕ, zero, suc, ◌+◌, ◌-◌, ◌*◌, ◌/◌, ◌%◌, ◌^◌, u32, u64, Option, none, some, List, [], ◌∷◌, ◌++◌,
  ltb, leb, ◌==◌, ◌&&◌, ◌||◌, not, if◌then◌else◌, length, take, drop, Bool, true, false, get_elem?,
}
use softether_android_client.Rudp.Fifo.{Fifo, write, peek, advance}
use softether_android_client.Pack.Reader.{list_eq}

abbrev pub max_segment_size : ℕ
max_segment_size = 512

abbrev pub max_num_ack : ℕ
max_num_ack = 64

abbrev pub max_fifo_size : ℕ
max_fifo_size = 524288

abbrev pub sha1_size : ℕ
sha1_size = 20

-- RT_STATUS_CONNECT_SENT, RT_STATUS_ESTABLISHED and RT_STATUS_DISCONNECTED
pub data Status : Type 0 where
  connect_sent established disconnected : Status

-- `rt_segment_t`; `size` is the length of `payload`.
pub record Segment : Type 0 where
  pub seq : ℕ
  pub payload : List ℕ
  pub next_send_tick : ℕ
  pub num_sent : ℕ

-- `rt_session_t` without its keys.
pub record Session : Type 0 where
  pub status : Status
  pub magic_req : List ℕ
  pub magic_resp : List ℕ
  pub next_send_seq : ℕ
  pub last_recv_complete_seq : ℕ
  pub latest_recv_my_tick : ℕ
  pub current_rtt : ℕ
  pub last_sent_tick : ℕ
  pub next_keepalive_interval : ℕ
  pub created_tick : ℕ
  pub send_segments : List Segment
  pub recv_segments : List Segment
  pub reply_acks : List ℕ
  pub send_fifo : Fifo
  pub recv_fifo : Fifo

-- A segment that is queued or has just arrived.
abbrev pub new_segment : ℕ → List ℕ → Segment
new_segment seq bs = record { seq = seq; payload = bs; next_send_tick = 0; num_sent = 0 }

-- `rt_queue_segment`
unfoldable pub queue_segment : Session → List ℕ → Session
queue_segment se bs = if leb max_num_ack (length se.send_segments) then se else record se {
  send_segments = se.send_segments ++ (new_segment se.next_send_seq bs ∷ []);
  next_send_seq = u64 (se.next_send_seq + 1);
}

-- The loop of `rt_process_ack`: only the first segment of that number goes.
unfoldable pub remove_seq : ℕ → List Segment → List Segment
remove_seq seq [] = []
remove_seq seq (s ∷ ss) = let rest = s ∷ remove_seq seq ss in if s.seq == seq then ss else rest

unfoldable pub process_ack : Session → ℕ → Session
process_ack se seq = record se { send_segments = remove_seq seq se.send_segments }

-- The loop of `rt_process_ack2`.
unfoldable pub remove_upto : ℕ → List Segment → List Segment
remove_upto max_seq [] = []
remove_upto max_seq (s ∷ ss) =
    let rest = remove_upto max_seq ss in if leb s.seq max_seq then rest else s ∷ rest

unfoldable pub process_ack2 : Session → ℕ → Session
process_ack2 se max_seq = record se { send_segments = remove_upto max_seq se.send_segments }

abbrev pub contains : ℕ → List ℕ → Bool
contains a [] = false
contains a (x ∷ xs) = (x == a) || contains a xs

unfoldable pub add_ack : Session → ℕ → Session
add_ack se seq =
    if contains seq se.reply_acks
    then se
    else if ltb (length se.reply_acks) max_num_ack
    then record se { reply_acks = se.reply_acks ++ (seq ∷ []) }
    else se

abbrev pub has_seq : ℕ → List Segment → Bool
has_seq seq [] = false
has_seq seq (s ∷ ss) = (s.seq == seq) || has_seq seq ss

-- `rt_process_recv_payload`
unfoldable pub process_recv_payload : Session → ℕ → List ℕ → Session
process_recv_payload se seq payload =
    if ltb (u64 (se.last_recv_complete_seq + max_num_ack)) seq
    then se
    else if leb seq se.last_recv_complete_seq
    then add_ack se seq
    else if has_seq seq se.recv_segments
    then add_ack se seq
    else if leb max_num_ack (length se.recv_segments)
    then se
    else add_ack (record se { recv_segments = se.recv_segments ++ (new_segment seq payload ∷ []) })
        seq

-- Whether a payload is a given keepalive magic of 20 bytes.
abbrev pub is_magic : List ℕ → List ℕ → Bool
is_magic bs magic = (length bs == sha1_size) && list_eq bs magic

-- What `rt_interrupt` does with a segment that is next in order; `none` is a full FIFO.
unfoldable pub accept_segment : Session → Segment → Option Session
accept_segment se s =
    if is_magic s.payload se.magic_req
    then some (if length se.send_segments == 0 then queue_segment se se.magic_resp else se)
    else if is_magic s.payload se.magic_resp
    then some se
    else elim (write se.recv_fifo s.payload) [
      | none ↦ none
      | some f ↦ some (record se { recv_fifo = f })
    ]

-- The draining loop of `rt_interrupt` over what is left of `recv_segments`, with `cur`. The
-- second part of the result is what stays in the array.
unfoldable pub drain_loop : Session → ℕ → List Segment → Session × List Segment
drain_loop se cur [] = (se, [])
drain_loop se cur (s ∷ ss) =
    if s.seq == u64 (cur + 1)
    then elim (accept_segment se s) [
      | none ↦ (se, s ∷ ss)
      | some se' ↦ drain_loop (record se' { last_recv_complete_seq = s.seq }) (u64 (cur + 1)) ss
    ]
    else (se, s ∷ ss)

unfoldable pub drain : Session → Session
drain se =
    let (se', left) = drain_loop se se.last_recv_complete_seq se.recv_segments in
    record se' { recv_segments = left }

-- The sequence number of the first unacknowledged segment, 0 if there is none.
abbrev pub seq_min : List Segment → ℕ
seq_min [] = 0
seq_min (s ∷ ss) = s.seq

abbrev pub window_full : Session → Bool
window_full se =
    not (seq_min se.send_segments == 0)
    && ltb (u64 (seq_min se.send_segments + max_num_ack - 1)) se.next_send_seq

-- The body of the loop of `rt_segment_send_fifo` when it does not break.
unfoldable pub segment_step : Session → Session
segment_step se =
    let n =
      if ltb max_segment_size se.send_fifo.size then max_segment_size else se.send_fifo.size in
    let se' = queue_segment se (peek se.send_fifo n) in
    record se' { send_fifo = advance se'.send_fifo n }

-- The loop; `none` is out of fuel.
unfoldable pub segment_loop : ℕ → Session → Option Session
segment_loop zero se = none
segment_loop (suc fuel) se = elim (window_full se || (se.send_fifo.size == 0)) [
  | true ↦ some se
  | false ↦ segment_loop fuel (segment_step se)
]

-- `rt_segment_send_fifo`: each round takes a byte at least.
unfoldable pub segment_send_fifo : Session → Option Session
segment_send_fifo se = segment_loop (suc se.send_fifo.size) se

-- One round of `rt_pump_pair_to_send` with the bytes, at most 512, that `recv` gave. The status
-- of the write is not looked at.
unfoldable pub pump_chunk : Session → List ℕ → Session
pump_chunk se bs = elim (write se.send_fifo bs) [ none ↦ se | some f ↦ record se { send_fifo = f } ]

-- The loop of `rt_pump_pair_to_send` over what `recv` gives until it would block. The second part
-- is what was not received, because the FIFO counts as full.
unfoldable pub pump_pair_to_send : Session → List (List ℕ) → Session × List (List ℕ)
pump_pair_to_send se [] = (se, [])
pump_pair_to_send se (bs ∷ more) =
    let rest = pump_pair_to_send (pump_chunk se bs) more in
    if leb max_fifo_size se.send_fifo.size then (se, bs ∷ more) else rest
