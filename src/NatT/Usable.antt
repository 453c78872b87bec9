-- ===== src/NatT/Usable.antt =====
-- What an answer of the relay is like that `nat_t_parse_response` accepts.
use softether_android_client.Base.{
  ℕ, subst, ◌≤◌, ◌<◌, ◌≡◌, ◌≢◌, inl, inr, arith, refl, Option, none, some, List, ltb, ◌==◌, ◌||◌,
  not, Bool-cases, codes,
}
use softether_android_client.Pack.Reader.{
  pack_get_int, pack_get_int64, pack_get_str, c_string, list_eq,
}
use softether_android_client.NatT.Response.{
  NatResult, Verdict, success, ignore, failure, parse_response, parse_transaction, parse_opcode,
  parse_answer, accept_ip, accept_port, accept_address, err_ok, field_or_zero,
}

-- An accepted answer is an address that can be sent to.
pub record IsUsable (r : NatResult) : Type 0 where
  pub ip : r.result_ip ≢ 0
  pub port_low : 0 < r.result_port
  pub port_high : r.result_port ≤ 65535
  pub no_error : r.error_code ≡ err_ok

abbrev OnSuccess {ℓ} : (NatResult → Type ℓ) → Verdict → Type ℓ
OnSuccess P (success r) = P r
OnSuccess P ignore = Unit
OnSuccess P (failure r) = Unit

module _ (buf : List ℕ) (r : NatResult) where
  address-IsUsable :
      (port : ℕ) (ip : Option ℕ)
      → 0 < port
      → port ≤ 65535
      → OnSuccess IsUsable (accept_address buf r port ip)
  address-IsUsable port none low high = tt
  address-IsUsable port (some ip) low high = elim (Bool-cases (ip == 0)) [
    | inl z ↦ rw z tt
    | inr nz ↦ rw nz (record {
      ip = ground arith;
      port_low = omega arith;
      port_high = omega arith;
      no_error = refl;
    })
  ]

  port-IsUsable : (ip port : Option ℕ) → OnSuccess IsUsable (accept_port buf r ip port)
  port-IsUsable ip none = tt
  port-IsUsable ip (some port) = elim (Bool-cases ((port == 0) || ltb 65535 port)) [
    | inl bad ↦ rw bad tt
    | inr good ↦ rw good (address-IsUsable port ip (ground arith) (ground arith))
  ]

  module _ (pton : List ℕ → Option ℕ) where
    answer-IsUsable : OnSuccess IsUsable (parse_answer pton buf r)
    answer-IsUsable = elim (Bool-cases (not (field_or_zero buf (codes "ok") == 0))) [
      | inr no_ok ↦ rw no_ok tt
      | inl is_ok ↦ elim (Bool-cases (not (field_or_zero buf (codes "multi_candidates") == 0))) [
        | inl many ↦ rw (is_ok, many) tt
        | inr single ↦
            rw (is_ok, single) (ip_case (pack_get_str (some buf) (some (codes "result_ip")) 16))
      ]
    ]
      where
        ip_case : (ip : Option (List ℕ)) → OnSuccess IsUsable (accept_ip pton buf r ip)
        ip_case none = tt
        ip_case (some ip) =
            port-IsUsable (pton (c_string ip))
              (pack_get_int (some buf) (some (codes "result_port")))

    opcode-IsUsable :
        (opcode : Option (List ℕ)) → OnSuccess IsUsable (parse_opcode pton buf r opcode)
    opcode-IsUsable none = tt
    opcode-IsUsable (some opcode) =
        elim (Bool-cases (list_eq (c_string opcode) (codes "nat_t_connect_request"))) [
          | inl same ↦ rw same answer-IsUsable
          | inr else_one ↦ rw else_one tt
        ]

    parse_response-OnSuccess :
        (tran_id : ℕ)
        → OnSuccess
            (λ r'.
              IsUsable r' × (pack_get_int64 (some buf) (some (codes "tran_id")) ≡ some tran_id))
            (parse_response pton buf tran_id r)
    unfolding parse_response
    parse_response-OnSuccess tran_id = go (pack_get_int64 (some buf) (some (codes "tran_id")))
      where
        with_id :
            (id : Option ℕ) (v : Verdict)
            → id ≡ some tran_id
            → OnSuccess IsUsable v
            → OnSuccess (λ r'. IsUsable r' × (id ≡ some tran_id)) v
        with_id id (success r') e u = (u, e)
        with_id id ignore e u = tt
        with_id id (failure r') e u = tt

        go :
            (id : Option ℕ)
            → OnSuccess
                (λ r'. IsUsable r' × (id ≡ some tran_id))
                (parse_transaction pton buf tran_id r id)
        go none = tt
        go (some id) = elim (Bool-cases (id == tran_id)) [
          | inl same ↦ rw same (with_id (some id) _ (ground arith) (opcode-IsUsable _))
          | inr foreign ↦ rw foreign tt
        ]

    -- When `nat_t_parse_response` accepts an answer, the answer is for our transaction, and the
    -- result is an address other than 0 with a port from 1 to 65535 and no error.
    pub parse_response-IsUsable :
        (tran_id : ℕ) (r' : NatResult)
        → parse_response pton buf tran_id r ≡ success r'
        → IsUsable r' × (pack_get_int64 (some buf) (some (codes "tran_id")) ≡ some tran_id)
    parse_response-IsUsable tran_id r' e =
        subst
          (OnSuccess (λ r'.
            IsUsable r' × (pack_get_int64 (some buf) (some (codes "tran_id")) ≡ some tran_id)))
          e (parse_response-OnSuccess tran_id)
