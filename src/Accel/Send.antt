-- ===== src/Accel/Send.antt =====
-- `rudp_send_nolock`. SHA-1, the AEAD cipher of OpenSSL and zlib are parameters; what `rand()`
-- gives, the clock and the outcome of `sendto` are arguments. The second result is the packet that
-- was sent, `none` for -1. A block is shorter than 2 ^ 32 - 64 bytes, so `uint32_t` sums are exact.
pub mod Fits
pub mod Arrives
use softether_android_client.Base.{
  ℕ, ◌+◌, ◌-◌, ◌*◌, ◌/◌, ◌%◌, Option, none, some, List, [], ◌∷◌, ◌++◌, ltb, leb, ◌==◌, ◌&&◌,
  if◌then◌else◌, length, take, drop, replicate, Bool, true, false,
}
use softether_android_client.Bytes.{write_u32, write_u64}
use softether_android_client.Crypto.Rc4.{rc4_crypt}
use softether_android_client.Accel.Context.{Context, is_set}
use softether_android_client.Accel.Window.{cwin_consume}

-- `htons` of `(uint16_t)n`
unfoldable pub write_u16 : ℕ → List ℕ
write_u16 n = n / 256 % 256 ∷ n % 256 ∷ []

-- The plaintext up to the padding.
unfoldable pub write_inner : Context → List ℕ → ℕ → List ℕ
write_inner c payload flag =
    write_u32 c.your_cookie
    ++ (write_u64 (if c.now == 0 then 1 else c.now)
        ++ (write_u64 c.last_recv_your_tick ++ (write_u16 (length payload) ++ (flag ∷ payload))))

-- How many zeros are put behind a packet of `current_size` bytes.
unfoldable pub pad_size : ℕ → ℕ → ℕ → ℕ
pad_size max_size current_size r =
    let room = if ltb 32 (max_size - current_size) then 32 else max_size - current_size in
    if ltb current_size max_size then r % (room + 1) else 0

-- RUDP_TMP_BUF_SIZE - RUDP_PACKET_IV_SIZE_V1 - 8
abbrev pub data_limit : ℕ
data_limit = 2020

-- The guard in front of the copy of the data, for an initialisation vector of `iv_size` bytes.
abbrev pub too_large : ℕ → List ℕ → Bool
too_large iv_size payload = leb 1 (length payload) && ltb data_limit (iv_size + 23 + length payload)

module _ (sha1 : List ℕ → List ℕ) where
  -- `calc_key`
  unfoldable pub calc_key : List ℕ → List ℕ → List ℕ
  calc_key common_key iv = sha1 (common_key ++ iv)

  unfoldable pub packet_v1 : ℕ → List ℕ → ℕ → Context → List ℕ
  packet_v1 r payload flag c =
      let pad = pad_size c.max_udp_packet_size (63 + length payload) r in
      c.next_iv
      ++ rc4_crypt (calc_key c.my_key c.next_iv)
          (write_inner c payload flag ++ (replicate pad 0 ++ replicate 20 0))

-- EVP_chacha20_poly1305 under a key and a vector: the ciphertext and the tag.
module _ (aead : List ℕ → List ℕ → List ℕ → List ℕ × List ℕ) where
  unfoldable pub sealed_v2 : ℕ → List ℕ → ℕ → Context → List ℕ × List ℕ
  sealed_v2 r payload flag c =
      let pad = pad_size c.max_udp_packet_size (51 + length payload) r in
      aead c.my_key_v2 c.next_iv_v2 (write_inner c payload flag ++ replicate pad 0)

module _ (sha1 : List ℕ → List ℕ) (aead : List ℕ → List ℕ → List ℕ → List ℕ × List ℕ)
    (compress : List ℕ → Option (List ℕ)) where
  -- `sendto` and what follows it.
  unfoldable pub transmit : Bool → ℕ → List ℕ → Context → Context × Option (List ℕ)
  transmit sent data_size pkt c = if sent then (cwin_consume data_size c, some pkt) else (c, none)

  unfoldable pub send_v1 : Bool → ℕ → ℕ → List ℕ → ℕ → Context → Context × Option (List ℕ)
  send_v1 sent r data_size payload flag c =
      let pkt = packet_v1 sha1 r payload flag c in
      if too_large 20 payload
      then (c, none)
      else transmit sent data_size pkt (record c { next_iv = drop (length pkt - 20) pkt })

  unfoldable pub send_v2 : Bool → ℕ → ℕ → List ℕ → ℕ → Context → Context × Option (List ℕ)
  send_v2 sent r data_size payload flag c =
      let current_size = 51 + length payload in
      let pad = pad_size c.max_udp_packet_size current_size r in
      let (cipher, mac) = sealed_v2 aead r payload flag c in
      if too_large 12 payload
      then (c, none)
      else if ltb 2048 (current_size + pad)
      then (c, none)
      else transmit sent data_size (c.next_iv_v2 ++ (cipher ++ mac))
          (record c { next_iv_v2 = take 12 cipher })

  unfoldable pub send_payload : Bool → ℕ → ℕ → List ℕ → ℕ → Context → Context × Option (List ℕ)
  send_payload sent r data_size payload flag c =
      if c.version == 1
      then send_v1 sent r data_size payload flag c
      else send_v2 sent r data_size payload flag c

  -- The payload goes out as it is unless compression was negotiated and succeeds.
  unfoldable pub send_nolock : ℕ → Bool → ℕ → List ℕ → ℕ → Context → Context × Option (List ℕ)
  send_nolock now sent r bs flag c =
      let c' = record c { now = now } in
      let plain = send_payload sent r (length bs) bs flag c' in
      if c.use_compress && leb 2 (length bs)
      then elim (compress bs) [
        | none ↦ plain
        | some z ↦ send_payload sent r (length bs) z (if flag % 2 == 1 then flag else flag + 1) c'
      ]
      else plain

  -- `rudp_send`
  unfoldable pub send : ℕ → Bool → ℕ → List ℕ → ℕ → Context → Context × Option (List ℕ)
  send now sent r bs flag c =
      if c.inited && is_set c.peer_addr then send_nolock now sent r bs flag c else (c, none)
