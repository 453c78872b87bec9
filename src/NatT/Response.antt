-- ===== src/NatT/Response.antt =====
-- `nat_t_build_hostname` and `nat_t_parse_response` of softether_nat_t.c.
use softether_android_client.Base.{
  ℕ, ◌/◌, ◌%◌, ◌^◌, u16, Option, none, some, List, [], ◌∷◌, ◌++◌, ltb, ◌==◌, ◌||◌, not,
  if◌then◌else◌, codes, get_or,
}
use softether_android_client.Pack.Reader.{
  pack_get_int, pack_get_int64, pack_get_str, c_string, list_eq,
}

-- `softether_nat_t_result_t`; `udp_fd` is `none` for -1.
pub record NatResult : Type 0 where
  pub result_ip : ℕ
  pub result_port : ℕ
  pub same_lan : ℕ
  pub udp_fd : Option ℕ
  pub error_code : ℕ

-- NAT_T_ERR_OK, NAT_T_ERR_UNKNOWN, NAT_T_ERR_GETIP_FAILED, NAT_T_ERR_NO_RESPONSE,
-- NAT_T_ERR_TWO_OR_MORE and NAT_T_ERR_NOT_FOUND
abbrev pub err_ok : ℕ
err_ok = 0

abbrev pub err_unknown : ℕ
err_unknown = 1

abbrev pub err_getip_failed : ℕ
err_getip_failed = 3

abbrev pub err_no_response : ℕ
err_no_response = 4

abbrev pub err_two_or_more : ℕ
err_two_or_more = 5

abbrev pub err_not_found : ℕ
err_not_found = 6

-- 1, 0 and -1, with the result as it is stored then.
pub data Verdict : Type 0 where
  success : NatResult → Verdict
  ignore : Verdict
  failure : NatResult → Verdict

-- A variable that a getter leaves alone when it finds nothing.
abbrev pub or_default : Option ℕ → ℕ → ℕ
or_default none d = d
or_default (some v) d = v

abbrev pub field_or_zero : List ℕ → List ℕ → ℕ
field_or_zero buf name = or_default (pack_get_int (some buf) (some name)) 0

abbrev pub new_cookie : Option ℕ → ℕ → ℕ
new_cookie none current = current
new_cookie (some cookie) current = if cookie == 0 then current else cookie

-- `*current_cookie` after the call.
unfoldable pub parse_cookie : List ℕ → ℕ → ℕ
parse_cookie buf current = new_cookie (pack_get_int64 (some buf) (some (codes "cookie"))) current

-- The end of the successful case, at an address that `inet_pton` gave.
abbrev pub accept_address : List ℕ → NatResult → ℕ → Option ℕ → Verdict
accept_address buf r port none = ignore
accept_address buf r port (some ip) =
    if ip == 0
    then ignore
    else success (record r {
      result_ip = ip;
      result_port = u16 port;
      same_lan = field_or_zero buf (codes "same_lan");
      error_code = err_ok;
    })

abbrev pub accept_port : List ℕ → NatResult → Option ℕ → Option ℕ → Verdict
accept_port buf r address none = ignore
accept_port buf r address (some port) =
    if (port == 0) || ltb 65535 port then ignore else accept_address buf r port address

-- `inet_pton(AF_INET, …)` into `s_addr`; `none` where it does not return 1.
module _ (pton : List ℕ → Option ℕ) where
  abbrev pub accept_ip : List ℕ → NatResult → Option (List ℕ) → Verdict
  accept_ip buf r none = ignore
  accept_ip buf r (some ip) =
      accept_port buf r (pton (c_string ip)) (pack_get_int (some buf) (some (codes "result_port")))

  abbrev pub parse_answer : List ℕ → NatResult → Verdict
  parse_answer buf r =
      if not (field_or_zero buf (codes "ok") == 0)
      then if not (field_or_zero buf (codes "multi_candidates") == 0)
        then failure (record r { error_code = err_two_or_more })
        else accept_ip buf r (pack_get_str (some buf) (some (codes "result_ip")) 16)
      else failure (record r {
        error_code =
            if not (field_or_zero buf (codes "multi_candidates") == 0)
            then err_two_or_more
            else err_not_found;
      })

  abbrev pub parse_opcode : List ℕ → NatResult → Option (List ℕ) → Verdict
  parse_opcode buf r none = ignore
  parse_opcode buf r (some opcode) =
      if list_eq (c_string opcode) (codes "nat_t_connect_request")
      then parse_answer buf r
      else ignore

  abbrev pub parse_transaction : List ℕ → ℕ → NatResult → Option ℕ → Verdict
  parse_transaction buf tran_id r none = ignore
  parse_transaction buf tran_id r (some resp_tran_id) =
      if resp_tran_id == tran_id
      then parse_opcode buf r (pack_get_str (some buf) (some (codes "opcode")) 64)
      else ignore

  unfoldable pub parse_response : List ℕ → ℕ → NatResult → Verdict
  parse_response buf tran_id r =
      parse_transaction buf tran_id r (pack_get_int64 (some buf) (some (codes "tran_id")))

abbrev pub hex_digit : ℕ → ℕ
hex_digit n = get_or (codes "0123456789abcdef") n 0

-- `sha1_hash` of the four bytes of the address; `none` is -1.
unfoldable pub build_hostname : (List ℕ → List ℕ) → List ℕ → ℕ → Option (List ℕ)
build_hostname sha1 ip_be dst_size =
    if ltb dst_size 96
    then none
    else let second = get_or (sha1 ip_be) 1 0 in
      some (
        codes "x"
        ++ ((hex_digit (second / 2 ^ 4 % 16) ∷ [])
            ++ (codes ".x"
                ++ ((hex_digit (second % 16) ∷ [])
                    ++ codes ".servers.nat-traversal.softether-network.net."))))
