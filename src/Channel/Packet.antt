-- ===== src/Channel/Packet.antt =====
-- `softether_receive_packet` of packet_handler.c, which reads one message without the queue, and the
-- calls on top of it. The state of the connection was checked before the reading begins, and the
-- caller's buffer, of `max` bytes, is there; `malloc` gives the memory that a block is read into.
-- The int that counts the bytes is its 32 bits, taken to wrap around: it is negative from 2 ^ 31 on.
pub mod First
use softether_android_client.Base.{
  ◌^◌, u32, ℕ, zero, suc, ◌+◌, ◌-◌, Option, none, some, List, [], ◌∷◌, ◌++◌, ltb, leb, ◌==◌, ◌&&◌,
  ◌||◌, not, if◌then◌else◌, length, Bool, true, false,
}
use softether_android_client.Channel.Stream.{Arrival, Wire, tls, raw_conn, read_all, word_of, Write}
use softether_android_client.Channel.Inbox.{
  and_then, skip, decode, max_block_size, keep_alive_magic,
}
use softether_android_client.Channel.Connection.{Connection, is_down, is_open}
use softether_android_client.Channel.Send.{Sent, send_keepalive}

-- CMD_KEEPALIVE, or CMD_DATA with the block that was stored, if one was, and the 32 bits of the int
-- that is returned.
pub data Packet : Type 0 where
  keepalive : ℕ → Packet
  data_of : Option (List ℕ) → ℕ → Packet

-- The payload of a block that is stored, with zlib where the session is compressed.
abbrev pub payload_of : Option (ℕ → List ℕ → Option (List ℕ)) → ℕ → List ℕ → List ℕ
payload_of z max [] = []
payload_of none max (b ∷ bs) = b ∷ bs
payload_of (some uncompress) max (b ∷ bs) = decode uncompress max (b ∷ bs)

abbrev pub is_stored : Option (List ℕ) → Bool
is_stored none = false
is_stored (some p) = true

-- The test `result < 0`.
abbrev pub is_negative : ℕ → Bool
is_negative result = leb (2 ^ 31) result

module _ {S : Type 0} (read : ℕ → S → Option (List ℕ) × S)
    (z : Option (ℕ → List ℕ → Option (List ℕ))) (max : ℕ) where
  -- A block of size `n`: the first that fits is stored, any other is skipped.
  unfoldable pub store_or_skip : ℕ → Option (List ℕ) → S → Option (Option (List ℕ)) × S
  store_or_skip n stored s =
      let (ok, s') = skip read n s in
      if ltb max_block_size n
      then (none, s)
      else if not (is_stored stored) && leb n max
      then and_then (read n s) none (λ bs s''. (some (some (payload_of z max bs)), s''))
      else (if ok then some stored else none, s')

  unfoldable pub packet_block : Option (List ℕ) → ℕ → S → Option (Option (List ℕ) × ℕ) × S
  packet_block stored total s = and_then (word_of (read 4 s)) none (λ n s'.
      and_then (store_or_skip n stored s') none
        (λ stored' s''. (some (stored', u32 (total + 4 + n)), s'')))

  -- The loop over the blocks.
  unfoldable pub packet_blocks : ℕ → Option (List ℕ) → ℕ → S → Option Packet × S
  packet_blocks zero stored total s = (some (data_of stored total), s)
  packet_blocks (suc k) stored total s =
      and_then (packet_block stored total s) none (λ r s'. packet_blocks k r.0 r.1 s')

  unfoldable pub packet_keepalive : ℕ → S → Option Packet × S
  packet_keepalive n s =
      let size = if ltb 512 n then 512 else n in
      and_then (read size s) none (λ bs s'. (some (keepalive (8 + size)), s'))

  unfoldable pub receive_packet_from : S → Option Packet × S
  receive_packet_from s = and_then (word_of (read 4 s)) none (λ count s'.
      if count == keep_alive_magic
      then and_then (word_of (read 4 s')) none (λ n s''. packet_keepalive n s'')
      else packet_blocks count none 4 s')

-- `data_read_all`
unfoldable pub data_read_all : Connection → ℕ → List Arrival → Option (List ℕ) × List Arrival
data_read_all c n s =
    if is_down c.state && ltb 0 n
    then (none, s)
    else read_all (if c.use_ssl_data then tls else raw_conn) n s

-- `softether_receive_packet`: `none` is -1.
unfoldable pub receive_packet :
    (ℕ → List ℕ → Option (List ℕ)) → ℕ → Connection → List Arrival → Option Packet × List Arrival
receive_packet uncompress max c s =
    if not c.ssl || not (is_open c.socket_fd)
    then (none, s)
    else if is_down c.state
    then (none, s)
    else receive_packet_from (data_read_all c)
        (if c.server_use_compress then some uncompress else none) max s

-- `softether_process_keepalive`: whether it returns 0, with the answer to a keepalive.
unfoldable pub process_keepalive :
    (ℕ → List ℕ → Option (List ℕ))
    → ℕ
    → (ℕ → ℕ)
    → List Write
    → Connection
    → List Arrival
    → (Bool × Sent) × List Arrival
process_keepalive uncompress size rand rs c s =
    let (r, s') = receive_packet uncompress 256 c s in (answer r, s')
  where
    answer : Option Packet → Bool × Sent
    answer none = (false, [])
    answer (some (keepalive n)) = (true, (send_keepalive size rand rs c).0)
    answer (some (data_of p n)) = (not (is_negative n), [])
