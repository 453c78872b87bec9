-- ===== src/NatT/Connect.antt =====
-- The loop of `nat_t_connect`, over what the clock, the flag and the socket give in each round.
use softether_android_client.Base.{
  ℕ, ◌+◌, ◌*◌, ◌^◌, u64, Option, none, some, List, [], ◌∷◌, ◌++◌, ltb, leb, ◌==◌, ◌&&◌, ◌||◌,
  if◌then◌else◌, Bool, true, false, codes,
}
use softether_android_client.Pack.Writer.{
  Pack, Memory, Outcome, returns, fault, pack_new, pack_add_str, pack_add_int, pack_add_int64,
  pack_bytes,
}
use softether_android_client.NatT.Response.{
  NatResult, Verdict, success, ignore, failure, parse_cookie, parse_response, err_no_response,
}

abbrev pub nat_t_port : ℕ
nat_t_port = 5004

abbrev pub default_timeout_ms : ℕ
default_timeout_ms = 12000

-- What `recvfrom` gives: the sender and the bytes.
pub record Datagram : Type 0 where
  pub from_ip : ℕ
  pub from_port : ℕ
  pub bytes : List ℕ

-- One round of the loop as its environment sees it: the tick that it reads, the cancel flag and
-- the datagrams that are pending.
pub record Round : Type 0 where
  pub now : ℕ
  pub cancelled : Bool
  pub datagrams : List Datagram

-- The variables of the call that change, with the number of requests sent so far.
pub record Attempt : Type 0 where
  pub next_send_tick : ℕ
  pub current_cookie : ℕ
  pub num_tries : ℕ
  pub result : NatResult
  pub requests : List (Option (List ℕ))

-- What the call does not change.
pub record Setup : Type 0 where
  pub relay_ip : ℕ
  pub fd : ℕ
  pub tran_id : ℕ
  pub giveup_tick : ℕ
  pub dest_ip : List ℕ
  pub svc_name : List ℕ

-- The return value with the result, or the loop goes on.
pub data Progress : Type 0 where
  returned : Bool → Attempt → Progress
  waiting : Attempt → Progress

-- The calls that fill the request; their statuses are not looked at.
abbrev pub then_add : Outcome → (Option Pack → Outcome) → Outcome
then_add fault k = fault
then_add (returns status p) k = k p

abbrev pub body_of : Outcome → Option (List ℕ)
body_of fault = none
body_of (returns status p) = pack_bytes p

module _ (mem : Memory) (pton : List ℕ → Option ℕ) (c : Setup) where
  unfoldable pub fill_request : Pack → ℕ → Outcome
  fill_request p cookie =
      then_add
        (pack_add_str mem (some p) (some (codes "opcode")) (some (codes "nat_t_connect_request")))
        λ p. then_add (pack_add_int64 mem p (some (codes "tran_id")) c.tran_id) λ p.
          then_add (pack_add_str mem p (some (codes "dest_ip")) (some c.dest_ip)) λ p.
            then_add (pack_add_int64 mem p (some (codes "cookie")) cookie) λ p.
              then_add (pack_add_str mem p (some (codes "svc_name")) (some c.svc_name))
                λ p. pack_add_int mem p (some (codes "nat_traversal_version")) 1

  -- The bytes handed to `sendto`, `none` where nothing is sent.
  abbrev pub request : Option Pack → ℕ → Option (List ℕ)
  request none cookie = none
  request (some p) cookie = body_of (fill_request p cookie)

  -- The interval to the next request, in milliseconds.
  unfoldable pub send_interval : ℕ → ℕ
  send_interval num_tries = 200 * 2 ^ (if ltb num_tries 6 then 6 else num_tries)

  unfoldable pub send_request : ℕ → Attempt → Attempt
  send_request now a = record a {
    next_send_tick = u64 (now + send_interval a.num_tries);
    num_tries = a.num_tries + 1;
    requests = a.requests ++ (request (pack_new mem) a.current_cookie ∷ []);
  }

  -- A datagram from the relay, and what `nat_t_parse_response` says of it.
  abbrev pub answer : Attempt → Verdict → (Attempt → Progress) → Progress
  answer a ignore more = more a
  answer a (success r) more =
      returned true
        (record a { result = record r { udp_fd = if r.same_lan == 0 then some c.fd else none } })
  answer a (failure r) more = returned false (record a { result = r })

  unfoldable pub drain_datagrams : List Datagram → Attempt → Progress
  drain_datagrams [] a = waiting a
  drain_datagrams (d ∷ ds) a =
      let others = drain_datagrams ds a in
      let ours =
        answer (record a { current_cookie = parse_cookie d.bytes a.current_cookie })
          (parse_response pton d.bytes c.tran_id a.result) (drain_datagrams ds) in
      if (d.from_ip == c.relay_ip) && (d.from_port == nat_t_port) then ours else others

  abbrev pub send_when_due : ℕ → Progress → Progress
  send_when_due now (returned ok a) = returned ok a
  send_when_due now (waiting a) =
      waiting
        (if (a.next_send_tick == 0) || leb a.next_send_tick now then send_request now a else a)

  -- One round of the loop.
  unfoldable pub round : Round → Attempt → Progress
  round e a =
      if leb c.giveup_tick e.now || e.cancelled
      then returned false (record a { result = record a.result { error_code = err_no_response } })
      else send_when_due e.now (drain_datagrams e.datagrams a)

  -- The loop over the rounds that the environment gives.
  unfoldable pub rounds : List Round → Attempt → Progress
  rounds [] a = waiting a
  rounds (e ∷ es) a = elim (round e a) [
    | returned ok a' ↦ returned ok a'
    | waiting a' ↦ rounds es a'
  ]
