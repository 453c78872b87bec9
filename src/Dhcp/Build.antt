-- ===== src/Dhcp/Build.antt =====
-- `ip_checksum` and `build_dhcp_frame` of dhcp_client.c. The words of the checksum are little-endian,
-- as on the machines that Android runs on, and what `rand()` gives is an argument.
pub mod Request
use softether_android_client.Base.{
  ℕ, ◌+◌, ◌-◌, ◌*◌, ◌/◌, ◌%◌, ◌^◌, Option, none, some, List, [], ◌∷◌, ◌++◌, ltb, ◌==◌,
  if◌then◌else◌, length, replicate,
}
use softether_android_client.Bytes.{write_u32}

-- The sum over the words; a last byte stands for itself.
unfoldable pub sum_words : List ℕ → ℕ
sum_words [] = 0
sum_words (a ∷ []) = a
sum_words (a ∷ (b ∷ bs)) = a + b * 2 ^ 8 + sum_words bs

abbrev pub fold_sum : ℕ → ℕ
fold_sum sum = sum / 2 ^ 16 + sum % 2 ^ 16

-- `ip_checksum`; at most 65,536 words, so that `sum` does not wrap.
unfoldable pub ip_checksum : List ℕ → ℕ
unfolding sum_words
ip_checksum bs = let sum = fold_sum (sum_words bs) in 2 ^ 16 - 1 - (sum + sum / 2 ^ 16) % 2 ^ 16

-- DHCP_DISCOVER, DHCP_OFFER, DHCP_REQUEST, DHCP_ACK and DHCP_NAK
abbrev pub dhcp_discover : ℕ
dhcp_discover = 1

abbrev pub dhcp_offer : ℕ
dhcp_offer = 2

abbrev pub dhcp_request : ℕ
dhcp_request = 3

abbrev pub dhcp_ack : ℕ
dhcp_ack = 5

abbrev pub dhcp_nak : ℕ
dhcp_nak = 6

-- An option of four bytes, left out for 0.
abbrev pub address_option : ℕ → ℕ → List ℕ
address_option opt v = if v == 0 then [] else opt ∷ (4 ∷ write_u32 v)

unfoldable pub request_options : ℕ → ℕ → ℕ → List ℕ
request_options msg_type requested_ip server_id =
    if msg_type == dhcp_request
    then address_option 50 requested_ip ++ address_option 54 server_id
    else []

-- The message: the fixed part of 236 bytes, the cookie and the options.
unfoldable pub dhcp_message : List ℕ → ℕ → ℕ → ℕ → ℕ → List ℕ
dhcp_message src_mac xid msg_type requested_ip server_id =
    (1 ∷ 1 ∷ 6 ∷ 0 ∷ [])
    ++ (write_u32 xid
        ++ ((0 ∷ 0 ∷ 0x80 ∷ 0 ∷ [])
            ++ (replicate 16 0
                ++ (src_mac
                    ++ (replicate 202 0
                        ++ ((0x63 ∷ 0x82 ∷ 0x53 ∷ 0x63 ∷ 53 ∷ 1 ∷ msg_type ∷ [])
                            ++ (request_options msg_type requested_ip server_id
                                ++ (55 ∷ 4 ∷ 1 ∷ 3 ∷ 6 ∷ 51 ∷ 255 ∷ []))))))))

-- From port 68 to port 67, with no checksum.
unfoldable pub udp_header : ℕ → List ℕ
udp_header udp_len = 0 ∷ 68 ∷ 0 ∷ 67 ∷ udp_len / 2 ^ 8 % 256 ∷ udp_len % 256 ∷ 0 ∷ 0 ∷ []

-- The header from 0.0.0.0 to 255.255.255.255, with a checksum at its place.
unfoldable pub ip_header_with : ℕ → ℕ → ℕ → ℕ → List ℕ
ip_header_with total_len r r' cksum =
    0x45
    ∷ 0
    ∷ total_len / 2 ^ 8 % 256
    ∷ total_len % 256
    ∷ r % 256
    ∷ r' % 256
    ∷ 0
    ∷ 0
    ∷ 128
    ∷ 17
    ∷ cksum % 256
    ∷ cksum / 256
    ∷ 0
    ∷ 0
    ∷ 0
    ∷ 0
    ∷ 255
    ∷ 255
    ∷ 255
    ∷ 255
    ∷ []

unfoldable pub ip_header : ℕ → ℕ → ℕ → List ℕ
ip_header total_len r r' =
    ip_header_with total_len r r' (ip_checksum (ip_header_with total_len r r' 0))

-- `build_dhcp_frame`; `none` is -1.
unfoldable pub build_dhcp_frame : ℕ → List ℕ → ℕ → ℕ → ℕ → ℕ → ℕ → ℕ → Option (List ℕ)
build_dhcp_frame max_len src_mac xid msg_type requested_ip server_id r r' =
    let message = dhcp_message src_mac xid msg_type requested_ip server_id in
    let udp_len = 8 + length message in
    let frame =
      replicate 6 255
      ++ (src_mac
          ++ ((8 ∷ 0 ∷ [])
              ++ (ip_header (20 + udp_len) r r' ++ (udp_header udp_len ++ message)))) in
    if ltb max_len (14 + (20 + udp_len)) then none else some frame
