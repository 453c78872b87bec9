-- ===== src/Dhcp/Build/Request.antt =====
-- What `build_dhcp_frame` builds.
use softether_android_client.Base.{
  Bool, true, false, ℕ, ◌+◌, ◌-◌, ◌/◌, ◌%◌, ◌^◌, ◌≤◌, ◌<◌, ◌≡◌, refl, ap, ◌∙◌, arith, some, List,
  [], ◌∷◌, ◌++◌, length, length-append, if◌then◌else◌, ◌==◌, replicate, ge→ltb, length-replicate,
  take, drop,
}
use softether_android_client.Bytes.{write_u32}
use softether_android_client.Dhcp.Parse.{Lease, parse_dhcp_response, parse_udp, u16_at}
use softether_android_client.Dhcp.Build.{
  sum_words, fold_sum, ip_checksum, address_option, request_options, dhcp_message, udp_header,
  ip_header_with, ip_header, build_dhcp_frame, dhcp_request,
}

-- One's complement: a sum with its own checksum added folds to all ones.
checksum_cancels :
    (sum : ℕ)
    → sum < 2 ^ 20
    → 2 ^ 16
        - 1
        - (fold_sum (sum + (2 ^ 16 - 1 - (fold_sum sum + fold_sum sum / 2 ^ 16) % 2 ^ 16))
            + fold_sum (sum + (2 ^ 16 - 1 - (fold_sum sum + fold_sum sum / 2 ^ 16) % 2 ^ 16))
              / 2 ^ 16)
          % 2 ^ 16
      ≡ 0
checksum_cancels sum h = omega arith

abbrev zeros : ℕ → List ℕ
zeros n = replicate n 0

size_if :
    (b : Bool) (n : ℕ) (xs ys : List ℕ)
    → length xs ≤ n
    → length ys ≤ n
    → length (if b then xs else ys) ≤ n
size_if true n xs ys h h' = h
size_if false n xs ys h h' = h'

size_append : (m n : ℕ) (xs ys : List ℕ) → length xs ≤ m → length ys ≤ n → length (xs ++ ys) ≤ m + n
size_append m n xs ys h h' = omega (arith, length-append xs ys)

length-address_option : (opt v : ℕ) → length (address_option opt v) ≤ 6
unfolding write_u32
length-address_option opt v =
    size_if (v == 0) 6 [] (opt ∷ (4 ∷ write_u32 v)) (omega arith) (omega arith)

length-request_options : (m ip id : ℕ) → length (request_options m ip id) ≤ 12
unfolding request_options
length-request_options m ip id =
    size_if (m == dhcp_request) 12 (address_option 50 ip ++ address_option 54 id) []
      (size_append 6 6 (address_option 50 ip) (address_option 54 id) (length-address_option 50 ip)
        (length-address_option 54 id))
      (omega arith)

length-dhcp_message :
    (src_mac : List ℕ) (xid msg_type requested_ip server_id : ℕ)
    → length src_mac ≡ 6
    → length (dhcp_message src_mac xid msg_type requested_ip server_id) ≤ 268
unfolding dhcp_message write_u32
length-dhcp_message src_mac xid msg_type requested_ip server_id h =
    let options = request_options msg_type requested_ip server_id in
    let last : List ℕ = 55 ∷ 4 ∷ 1 ∷ 3 ∷ 6 ∷ 51 ∷ 255 ∷ [] in
    let kind : List ℕ = 0x63 ∷ 0x82 ∷ 0x53 ∷ 0x63 ∷ 53 ∷ 1 ∷ msg_type ∷ [] in
    omega (
      arith,
      h,
      length-append src_mac (zeros 202 ++ (kind ++ (options ++ last))),
      length-append (zeros 202) (kind ++ (options ++ last)),
      length-replicate {0} {A = ℕ} 202 0,
      length-append options last,
      length-request_options msg_type requested_ip server_id,
    )

abbrev checksum_of : ℕ → ℕ
checksum_of sum = 2 ^ 16 - 1 - (fold_sum sum + fold_sum sum / 2 ^ 16) % 2 ^ 16

ip_header_sum :
    (total r r' cksum : ℕ)
    → cksum < 2 ^ 16
    → (sum_words (ip_header_with total r r' cksum)
        ≡ sum_words (ip_header_with total r r' 0) + cksum)
      × (sum_words (ip_header_with total r r' 0) < 2 ^ 20)
unfolding ip_header_with sum_words
ip_header_sum total r r' cksum h = (omega arith, omega arith)

-- The checksum over the finished header is 0.
ip_header-checksum : (total r r' : ℕ) → ip_checksum (ip_header total r r') ≡ 0
unfolding ip_checksum ip_header
ip_header-checksum total r r' =
    let sum = sum_words (ip_header_with total r r' 0) in
    let summed = ip_header_sum total r r' (checksum_of sum) (omega arith) in
    ap checksum_of summed.0 ∙ checksum_cancels sum summed.1

same_branch {ℓ} : {A : Type ℓ} (b : Bool) (x : A) → (if b then x else x) ≡ x
same_branch true x = refl
same_branch false x = refl

-- The source port of a request is 68, not 67.
request_ignored :
    (m0 m1 m2 m3 m4 m5 total r r' cksum udp_len xid : ℕ) (mac message : List ℕ) (l : Lease)
    → parse_dhcp_response
        (replicate 6 255
          ++ ((m0 ∷ m1 ∷ m2 ∷ m3 ∷ m4 ∷ m5 ∷ [])
              ++ ((8 ∷ 0 ∷ [])
                  ++ (ip_header_with total r r' cksum ++ (udp_header udp_len ++ message)))))
        xid
        mac
        l
      ≡ some (0, l)
unfolding parse_dhcp_response parse_udp u16_at ip_header_with udp_header
request_ignored m0 m1 m2 m3 m4 m5 total r r' cksum udp_len xid mac message l = same_branch _ _

-- `build_dhcp_frame` never fails on the 600 bytes that the exchange gives it: it builds a frame of
-- at most 310 bytes for every MAC, transaction, message type and address. The checksum of the
-- frame's IP header is right, which means that it sums to 0, and the client's own parser ignores
-- the frame when it comes back.
pub build_dhcp_frame_lem :
    (m0 m1 m2 m3 m4 m5 xid msg_type requested_ip server_id r r' : ℕ)
    → (bs : List ℕ) × (build_dhcp_frame 600
          (m0 ∷ m1 ∷ m2 ∷ m3 ∷ m4 ∷ m5 ∷ [])
          xid
          msg_type
          requested_ip
          server_id
          r
          r'
        ≡ some bs)
      × (length bs ≤ 310)
      × (ip_checksum (take 20 (drop 14 bs)) ≡ 0)
      × ((l : Lease)
          → parse_dhcp_response bs xid (m0 ∷ m1 ∷ m2 ∷ m3 ∷ m4 ∷ m5 ∷ []) l ≡ some (0, l))
unfolding build_dhcp_frame ip_header ip_header_with
build_dhcp_frame_lem m0 m1 m2 m3 m4 m5 xid msg_type requested_ip server_id r r' =
    let mac : List ℕ = m0 ∷ m1 ∷ m2 ∷ m3 ∷ m4 ∷ m5 ∷ [] in
    let message = dhcp_message mac xid msg_type requested_ip server_id in
    let udp_len = 8 + length message in
    let few = length-dhcp_message mac xid msg_type requested_ip server_id refl in
    rw (ge→ltb 600 (14 + (20 + udp_len)) (omega (arith, few))) (
      _,
      refl,
      unfold udp_header in omega (arith, few),
      ip_header-checksum (20 + udp_len) r r',
      λ l.
          request_ignored m0 m1 m2 m3 m4 m5 (20 + udp_len) r r'
            (ip_checksum (ip_header_with (20 + udp_len) r r' 0)) udp_len xid mac message l,
    )
