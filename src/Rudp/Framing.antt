-- ===== src/Rudp/Framing.antt =====
-- The framings of rudp_transport.c: the DNS query and the ICMP echo that `rt_send_udp` puts a packet
-- in, and what `rt_worker` takes off a datagram.
pub mod Echo
use softether_android_client.Base.{
  ℕ, zero, suc, ◌+◌, ◌-◌, ◌*◌, ◌/◌, ◌%◌, ◌^◌, Option, none, some, List, [], ◌∷◌, ◌++◌, ltb, leb,
  ◌==◌, ◌&&◌, ◌||◌, if◌then◌else◌, length, take, drop, get_or, Bool, true, false,
}
use softether_android_client.Rudp.Packet.{max_packet_size}

-- RUDP_T_MODE_UDP, RUDP_T_MODE_DNS and RUDP_T_MODE_ICMP
pub data Mode : Type 0 where
  udp dns icmp : Mode

-- The digit of a nibble in lower case.
abbrev pub hex : ℕ → ℕ
hex n = if ltb n 10 then 48 + n else 87 + n

-- The label of the query: two digits for each random byte.
unfoldable pub dns_label : List ℕ → List ℕ
dns_label [] = []
dns_label (b ∷ bs) = hex (b / 2 ^ 4 % 16) ∷ (hex (b % 16) ∷ dns_label bs)

-- The header of 36 bytes and the packet.
unfoldable pub dns_query : ℕ → List ℕ → List ℕ → List ℕ
unfolding dns_label
dns_query tran_id rand_data bs =
    (tran_id / 2 ^ 8 % 256 ∷ tran_id % 256 ∷ [])
    ++ ((1 ∷ 0 ∷ 0 ∷ 1 ∷ 0 ∷ 0 ∷ 0 ∷ 0 ∷ 0 ∷ 1 ∷ 8 ∷ [])
        ++ (dns_label rand_data
            ++ ((0 ∷ 0 ∷ 0x30 ∷ 0 ∷ 1 ∷ 0 ∷ 0x29 ∷ 0x10 ∷ 0 ∷ 0 ∷ 0 ∷ 0x80 ∷ 0 ∷ [])
                ++ ((length bs / 2 ^ 8 % 256 ∷ length bs % 256 ∷ []) ++ bs))))

-- The sum over big-endian words; a last byte is the high one.
unfoldable pub sum_words : List ℕ → ℕ
sum_words [] = 0
sum_words (a ∷ []) = a * 2 ^ 8
sum_words (a ∷ (b ∷ bs)) = a * 2 ^ 8 + b + sum_words bs

-- The loop that folds the carries, at most three times for fewer than 2 ^ 32.
abbrev pub fold_once : ℕ → ℕ
fold_once sum = if ltb sum (2 ^ 16) then sum else sum % 2 ^ 16 + sum / 2 ^ 16

abbrev pub checksum_of : ℕ → ℕ
checksum_of sum = 2 ^ 16 - 1 - fold_once (fold_once (fold_once sum))

-- The identifier and the sequence number of the transport are two bytes each.
unfoldable pub echo_with : ℕ → ℕ → ℕ → ℕ → ℕ → List ℕ → List ℕ → List ℕ
echo_with id0 id1 seq0 seq1 cksum hash bs =
    (8 ∷ 0 ∷ cksum / 2 ^ 8 ∷ cksum % 256 ∷ id0 ∷ id1 ∷ seq0 ∷ seq1 ∷ []) ++ (hash ++ bs)

unfoldable pub icmp_checksum : List ℕ → ℕ
unfolding sum_words
icmp_checksum pkt = checksum_of (sum_words pkt)

unfoldable pub icmp_echo : (List ℕ → List ℕ) → ℕ → ℕ → ℕ → ℕ → List ℕ → List ℕ
icmp_echo sha1 id0 id1 seq0 seq1 bs =
    let cksum = icmp_checksum (echo_with id0 id1 seq0 seq1 0 (sha1 bs) bs) in
    echo_with id0 id1 seq0 seq1 cksum (sha1 bs) bs

-- What is left of an ICMP datagram behind an IP header of that size.
abbrev pub strip_echo : ℕ → List ℕ → Option (List ℕ)
strip_echo offset buf =
    let type = get_or buf offset 0 in
    if ltb (length buf) (offset + 28)
    then none
    else if (type == 0) || (type == 8)
    then some (drop (offset + 28) buf)
    else none

-- What is behind the framing of the bytes received; `none` is `continue`.
unfoldable pub unframe : Mode → List ℕ → Option (List ℕ)
unframe udp buf = some buf
unframe dns buf = if ltb 42 (length buf) then some (drop 42 buf) else none
unframe icmp buf =
    let version = get_or buf 0 0 in
    strip_echo (if leb 20 (length buf) && (version / 2 ^ 4 == 4) then version % 16 * 4 else 0) buf

-- The packet in a datagram that is not empty: `recvfrom` cuts it to the buffer of
-- RUDP_T_MAX_PACKET_SIZE bytes. The identifier that a DNS answer leaves for the next query is left
-- out.
unfoldable pub strip : Mode → List ℕ → Option (List ℕ)
strip mode datagram = unframe mode (take max_packet_size datagram)
