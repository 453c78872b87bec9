-- ===== src/Rudp/Packet.antt =====
-- `rt_handle_udp_packet` of rudp_transport.c, with `rt_set_disconnected` as it calls it and
-- `rt_signal_result`. SHA-1 and RC4 are functions of other files and parameters here.
pub mod Authentic
use softether_android_client.Base.{
  ℕ, zero, suc, ◌+◌, ◌-◌, ◌*◌, ◌^◌, u32, Option, none, some, List, [], ◌∷◌, ◌++◌, ltb, leb, ◌==◌,
  ◌&&◌, ◌||◌, not, if◌then◌else◌, length, take, drop, get_or, Bool, true, false,
}
use softether_android_client.Bytes.{read_u32, fold_bytes}
use softether_android_client.Pack.Reader.{list_eq}
use softether_android_client.Rudp.Session.{
  Status, connect_sent, established, disconnected, Session, process_ack, process_ack2,
  process_recv_payload, max_num_ack, max_segment_size, sha1_size,
}

-- RUDP_T_MAX_PACKET_SIZE
abbrev pub max_packet_size : ℕ
max_packet_size = 1355

-- The transport as far as the handler goes: the session, the keys and the peer of it, and the
-- result that the connecting thread waits for, once there is one.
pub record Transport : Type 0 where
  pub session : Session
  pub key_send : List ℕ
  pub key_recv : List ℕ
  pub next_iv : List ℕ
  pub magic_disconnect : ℕ
  pub your_ip : ℕ
  pub your_port : ℕ
  pub your_tick : ℕ
  pub result : Option Bool

-- `rt_r64` and `rt_r32` at an offset.
abbrev pub r64 : List ℕ → ℕ → ℕ
r64 p i = fold_bytes 0 (take 8 (drop i p))

abbrev pub r32 : List ℕ → ℕ → ℕ
r32 p i = read_u32 (get_or p i 0) (get_or p (i + 1) 0) (get_or p (i + 2) 0) (get_or p (i + 3) 0)

-- The numbers that `n` acknowledgements from an offset on hold.
unfoldable pub read_acks : List ℕ → ℕ → ℕ → List ℕ
read_acks p i zero = []
read_acks p i (suc n) = r64 p i ∷ read_acks p (i + 8) n

-- The fields of a decrypted packet.
pub record Header : Type 0 where
  pub my_tick : ℕ
  pub your_tick : ℕ
  pub max_ack : ℕ
  pub acks : List ℕ
  pub seq_no : ℕ
  pub payload : List ℕ

-- MyTick, YourTick, MAX_ACK, NUM_ACK, the ACKs and SEQ of `enc_len` bytes; `none` is an early
-- return.
unfoldable pub read_header : ℕ → List ℕ → ℕ → Option Header
read_header now enc enc_len =
    let num_ack = r32 enc 24 in
    if ltb enc_len 36
    then none
    else if ltb max_num_ack num_ack
    then none
    else if ltb enc_len (36 + num_ack * 8)
    then none
    else if ltb now (r64 enc 8)
    then none
    else some (record {
      my_tick = r64 enc 0;
      your_tick = r64 enc 8;
      max_ack = r64 enc 16;
      acks = read_acks enc 28 num_ack;
      seq_no = r64 enc (28 + num_ack * 8);
      payload = drop (36 + num_ack * 8) (take enc_len enc);
    })

-- The padding, whose length is its last byte.
unfoldable pub strip_padding : ℕ → List ℕ → Option Header
strip_padding now enc =
    let padlen = get_or enc (length enc - 1) 0 in
    if ltb (length enc) 1
    then none
    else if padlen == 0
    then none
    else if ltb (length enc) padlen
    then none
    else read_header now enc (length enc - padlen)

unfoldable pub process_acks : Session → List ℕ → Session
process_acks se [] = se
process_acks se (a ∷ as') = process_acks (process_ack se a) as'

-- `rt_signal_result`: only the first result counts.
abbrev pub signal : Option Bool → Bool → Option Bool
signal none ok = some ok
signal (some r) ok = some r

-- `rt_set_disconnected` for a peer that disconnects, in a session that is not disconnected.
unfoldable pub peer_disconnects : Transport → Transport
peer_disconnects t = record t {
  session = record t.session { status = disconnected };
  result = signal t.result false;
}

abbrev pub greater : ℕ → ℕ → ℕ
greater a b = if ltb b a then a else b

-- Acknowledgements and ticks.
unfoldable pub note_header : Header → Transport → Transport
note_header h t =
    let se = if leb 1 h.max_ack then process_ack2 t.session h.max_ack else t.session in
    let se' = process_acks se h.acks in
    record t {
      session = record se' { latest_recv_my_tick = greater h.your_tick se'.latest_recv_my_tick };
      your_tick = greater (if leb 2 h.my_tick then h.my_tick - 1 else h.my_tick) t.your_tick;
    }

-- The first valid segment establishes the session.
abbrev pub establish : Status → Transport → Transport
establish connect_sent t = record t {
  session = record t.session { status = established };
  result = signal t.result true;
}
establish established t = t
establish disconnected t = t

unfoldable pub note_payload : ℕ → Header → Transport → Transport
note_payload src_port h t =
    let size = if ltb max_segment_size (length h.payload) then 0 else length h.payload in
    let se = if leb 1 size then process_recv_payload t.session h.seq_no h.payload else t.session in
    let t' = establish se.status (record t { session = se }) in record t' { your_port = src_port }

unfoldable pub process_header : ℕ → Header → Transport → Transport
process_header src_port h t =
    let t' = note_header h t in
    if h.seq_no == 0
    then t'
    else if h.seq_no == t.magic_disconnect
    then peer_disconnects t'
    else note_payload src_port h t'

abbrev pub process_decoded : ℕ → Option Header → Transport → Transport
process_decoded src_port none t = t
process_decoded src_port (some h) t = process_header src_port h t

abbrev pub is_disconnected : Status → Bool
is_disconnected disconnected = true
is_disconnected connect_sent = false
is_disconnected established = false

abbrev pub is_connect_sent : Status → Bool
is_connect_sent connect_sent = true
is_connect_sent established = false
is_connect_sent disconnected = false

module _ (sha1 : List ℕ → List ℕ) (rc4 : List ℕ → List ℕ → List ℕ) where
  -- SHA-1 over the packet with Key_Recv in place of the signature.
  abbrev pub is_signed : List ℕ → List ℕ → Bool
  is_signed key_recv pkt = list_eq (take sha1_size pkt) (sha1 (key_recv ++ drop sha1_size pkt))

  abbrev pub decrypt : List ℕ → List ℕ → List ℕ
  decrypt key_recv pkt = rc4 (sha1 (take sha1_size (drop sha1_size pkt) ++ key_recv)) (drop 40 pkt)

  -- The part from the copy of the packet on.
  unfoldable pub handle_signed : ℕ → ℕ → List ℕ → Transport → Transport
  handle_signed now src_port pkt t =
      if not (is_signed t.key_recv pkt)
      then t
      else if ltb (length pkt) 40
      then t
      else process_decoded src_port (strip_padding now (decrypt t.key_recv pkt)) t

  unfoldable pub handle_udp_packet : ℕ → ℕ → ℕ → List ℕ → Transport → Transport
  handle_udp_packet now src_ip src_port buf t =
      if is_disconnected t.session.status
      then t
      else if ltb (length buf) sha1_size
      then t
      else if ltb (length buf) 20
      then if is_connect_sent t.session.status && (src_ip == t.your_ip)
        then record t { your_port = src_port }
        else t
      else handle_signed now src_port (take max_packet_size buf) t
