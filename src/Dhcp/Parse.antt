-- ===== src/Dhcp/Parse.antt =====
-- `parse_dhcp_response` of dhcp_client.c. `none` is a read outside the frame, or an options loop
-- that ran out of the model's fuel.
use softether_android_client.Base.{
  ℕ, zero, suc, ◌+◌, ◌*◌, ◌/◌, ◌%◌, ◌^◌, sub32, Option, none, some, List, ltb, leb, ◌==◌, ◌&&◌, not,
  if◌then◌else◌, length, take, drop, get_elem?, Bool, true, false,
}
use softether_android_client.Bytes.{read_u32}
use softether_android_client.Pack.Reader.{◌>>=◌, list_eq}

-- `dhcp_result_t` without `success`, with the server id that the parser stores beside it.
pub record Lease : Type 0 where
  pub assigned_ip : ℕ
  pub subnet_mask : ℕ
  pub gateway : ℕ
  pub dns_server : ℕ
  pub dns_server2 : ℕ
  pub lease_time : ℕ
  pub server_id : ℕ

-- The message type that is returned, 0 for a frame to be ignored, and what was stored.
abbrev pub Answer : Type 0
Answer = ℕ × Lease

-- ETH_HLEN, IP_HLEN, UDP_HLEN and DHCP_MIN_LEN
abbrev pub eth_hlen : ℕ
eth_hlen = 14

abbrev pub ip_hlen_min : ℕ
ip_hlen_min = 20

abbrev pub udp_hlen : ℕ
udp_hlen = 8

abbrev pub dhcp_min_len : ℕ
dhcp_min_len = 236

unfoldable pub u16_at : List ℕ → ℕ → Option ℕ
u16_at frame i = get_elem? frame i >>= λ a. get_elem? frame (i + 1) >>= λ b. some (a * 2 ^ 8 + b)

unfoldable pub u32_at : List ℕ → ℕ → Option ℕ
u32_at frame i = get_elem? frame i >>= λ a. get_elem? frame (i + 1) >>= λ b.
    get_elem? frame (i + 2) >>= λ c. get_elem? frame (i + 3) >>= λ d. some (read_u32 a b c d)

-- `memcmp` reads all `n` bytes.
unfoldable pub bytes_at : List ℕ → ℕ → ℕ → Option (List ℕ)
bytes_at frame i n = if ltb (length frame) (i + n) then none else some (take n (drop i frame))

-- The cases of the `switch`, for an option whose value is the `len` bytes at `i`.
abbrev pub store : Bool → Option ℕ → (ℕ → Answer) → Answer → Option Answer
store false v k a = some a
store true v k a = v >>= λ n. some (k n)

abbrev pub second_dns : List ℕ → ℕ → ℕ → Answer → Option Answer
second_dns frame i len a =
    store (leb 8 len) (u32_at frame (i + 4)) (λ n. (a.0, record a.1 { dns_server2 = n })) a

unfoldable pub apply_option : List ℕ → ℕ → ℕ → ℕ → Answer → Option Answer
apply_option frame opt len i a =
    if opt == 53
    then store (leb 1 len) (get_elem? frame i) (λ n. (n, a.1)) a
    else if opt == 1
    then store (leb 4 len) (u32_at frame i) (λ n. (a.0, record a.1 { subnet_mask = n })) a
    else if opt == 3
    then store (leb 4 len) (u32_at frame i) (λ n. (a.0, record a.1 { gateway = n })) a
    else if opt == 6
    then store (leb 4 len) (u32_at frame i) (λ n. (a.0, record a.1 { dns_server = n })) a
      >>= second_dns frame i len
    else if opt == 51
    then store (leb 4 len) (u32_at frame i) (λ n. (a.0, record a.1 { lease_time = n })) a
    else if opt == 54
    then store (leb 4 len) (u32_at frame i) (λ n. (a.0, record a.1 { server_id = n })) a
    else some a

-- The part of a round behind the option's code, which is neither END nor PAD; `more` goes on at a
-- position.
abbrev pub read_option :
    List ℕ → ℕ → ℕ → ℕ → ℕ → Answer → (ℕ → Answer → Option Answer) → Option Answer
read_option frame base dhcp_len opt opt_pos a more =
    if leb dhcp_len opt_pos
    then some a
    else get_elem? frame (base + opt_pos) >>= λ len.
        if ltb dhcp_len (opt_pos + 1 + len)
        then some a
        else apply_option frame opt len (base + (opt_pos + 1)) a >>= λ a'.
            more (opt_pos + 1 + len) a'

-- The loop over the options; `base` is where the DHCP message starts in the frame. Positions stay
-- below `dhcp_len + 258`, so `uint32_t` does not wrap.
unfoldable pub options_loop : List ℕ → ℕ → ℕ → ℕ → ℕ → Answer → Option Answer
options_loop frame base dhcp_len zero opt_pos a = none
options_loop frame base dhcp_len (suc fuel) opt_pos a = elim (ltb opt_pos dhcp_len) [
  | false ↦ some a
  | true ↦ get_elem? frame (base + opt_pos) >>= λ opt.
      let pad = options_loop frame base dhcp_len fuel (opt_pos + 1) a in
      if opt == 255
      then some a
      else if opt == 0
      then pad
      else read_option frame base dhcp_len opt (opt_pos + 1) a
          (options_loop frame base dhcp_len fuel)
]

-- Fields of the DHCP message that starts at `base`, from the operation code on.
unfoldable pub parse_message : List ℕ → ℕ → List ℕ → ℕ → ℕ → Lease → Option Answer
parse_message frame expected_xid client_mac base dhcp_len r = get_elem? frame base >>= λ op.
    if not (op == 2)
    then some (0, r)
    else u32_at frame (base + 4) >>= λ xid.
        if not (xid == expected_xid)
        then some (0, r)
        else bytes_at frame (base + 28) 6 >>= λ chaddr.
            if not (list_eq chaddr client_mac)
            then some (0, r)
            else u32_at frame (base + 16) >>= λ yiaddr. u32_at frame (base + 236) >>= λ magic.
                if not (magic == 0x63825363)
                then some (0, record r { assigned_ip = yiaddr })
                else options_loop frame base dhcp_len (suc dhcp_len) 240
                    (0, record r { assigned_ip = yiaddr })

-- The header in front of the message. `dhcp_len` is computed in `uint32_t`.
unfoldable pub parse_udp : List ℕ → ℕ → List ℕ → ℕ → Lease → Option Answer
parse_udp frame expected_xid client_mac ip_hlen r =
    u16_at frame (eth_hlen + ip_hlen) >>= λ src_port.
    u16_at frame (eth_hlen + ip_hlen + 2) >>= λ dst_port.
    if not ((src_port == 67) && (dst_port == 68))
    then some (0, r)
    else let dhcp_len = sub32 (length frame) (eth_hlen + ip_hlen + udp_hlen) in
      if ltb dhcp_len (dhcp_min_len + 4)
      then some (0, r)
      else parse_message frame expected_xid client_mac (eth_hlen + ip_hlen + udp_hlen) dhcp_len r

-- `parse_dhcp_response`, with the result as it is before the call.
unfoldable pub parse_dhcp_response : List ℕ → ℕ → List ℕ → Lease → Option Answer
parse_dhcp_response frame expected_xid client_mac r =
    if ltb (length frame) (eth_hlen + ip_hlen_min + udp_hlen + dhcp_min_len + 4)
    then some (0, r)
    else u16_at frame 12 >>= λ ethertype.
        if not (ethertype == 0x0800)
        then some (0, r)
        else get_elem? frame eth_hlen >>= λ version.
            if not (version / 2 ^ 4 == 4)
            then some (0, r)
            else get_elem? frame (eth_hlen + 9) >>= λ protocol.
                if not (protocol == 17)
                then some (0, r)
                else parse_udp frame expected_xid client_mac (version % 16 * 4) r
