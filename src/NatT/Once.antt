-- ===== src/NatT/Once.antt =====
-- How often `nat_t_connect` sends its request.
use softether_android_client.Base.{
  ℕ, ◌+◌, ◌^◌, ◌≤◌, ◌<◌, ◌≡◌, ◌⊎◌, inl, inr, arith, ap, Option, List, [], ◌∷◌, leb, ◌==◌, ◌&&◌,
  ◌||◌, if◌then◌else◌, false, Bool-cases, length, length-append, All,
}
use softether_android_client.Pack.Writer.{Memory, pack_new}
use softether_android_client.NatT.Response.{
  Verdict, success, ignore, failure, parse_response, parse_cookie,
}
use softether_android_client.NatT.Connect.{
  Datagram, Round, Attempt, Setup, Progress, returned, waiting, send_interval, send_request, answer,
  drain_datagrams, send_when_due, round, rounds, request,
}

abbrev pub attempt_of : Progress → Attempt
attempt_of (returned ok a) = a
attempt_of (waiting a) = a

module _ (mem : Memory) (pton : List ℕ → Option ℕ) (c : Setup) where
  -- Nothing was sent yet, or one request was and the next is not due before the end.
  abbrev AtMostOne : Attempt → Type 0
  AtMostOne a =
      ((length a.requests ≡ 0) × (a.num_tries ≡ 0))
      ⊎ ((length a.requests ≡ 1) × (c.giveup_tick ≤ a.next_send_tick) × (0 < a.next_send_tick))

  drain-AtMostOne :
      (ds : List Datagram) (a : Attempt)
      → AtMostOne a
      → AtMostOne (attempt_of (drain_datagrams mem pton c ds a))
  unfolding drain_datagrams
  drain-AtMostOne [] a h = h
  drain-AtMostOne (d ∷ ds) a h =
      elim (Bool-cases ((d.from_ip == c.relay_ip) && (d.from_port == 5004))) [
        | inr foreign ↦ rw foreign (drain-AtMostOne ds a h)
        | inl ours ↦ rw ours (
            verdict (parse_response pton d.bytes c.tran_id a.result) (drain_datagrams mem pton c ds)
              (drain-AtMostOne ds
                (record a { current_cookie = parse_cookie d.bytes a.current_cookie }) h))
      ]
    where
      verdict :
          (v : Verdict) (rest : Attempt → Progress)
          → AtMostOne (
              attempt_of
                (rest (record a { current_cookie = parse_cookie d.bytes a.current_cookie })))
          → AtMostOne (
              attempt_of (
                answer mem pton c
                  (record a { current_cookie = parse_cookie d.bytes a.current_cookie })
                  v
                  rest))
      verdict ignore rest p = p
      verdict (success r) rest p = h
      verdict (failure r) rest p = h

  module _ (start : ℕ) (late : c.giveup_tick ≤ start + 12800)
      (far : c.giveup_tick + 12800 < 2 ^ 64) where
    send-AtMostOne :
        (now : ℕ) (a : Attempt)
        → start ≤ now
        → now < c.giveup_tick
        → AtMostOne a
        → AtMostOne (
            if (a.next_send_tick == 0) || leb a.next_send_tick now
            then send_request mem pton c now a
            else a)
    unfolding send_request send_interval
    send-AtMostOne now a begun early (inl h) =
        elim (Bool-cases ((a.next_send_tick == 0) || leb a.next_send_tick now)) [
          | inr not_due ↦ rw not_due (inl h)
          | inl due ↦
              rw (due, h.1)
                (inr (
                  omega (
                    arith,
                    h.0,
                    length-append a.requests
                        (request mem pton c (pack_new mem) a.current_cookie ∷ []),
                  ),
                  omega arith,
                  omega arith,
                ))
        ]
    send-AtMostOne now a begun early (inr h) =
        let not_due : ((a.next_send_tick == 0) || leb a.next_send_tick now) ≡ false =
          ground arith in
        rw not_due (inr h)

    due-AtMostOne :
        (now : ℕ) (p : Progress)
        → start ≤ now
        → now < c.giveup_tick
        → AtMostOne (attempt_of p)
        → AtMostOne (attempt_of (send_when_due mem pton c now p))
    due-AtMostOne now (returned ok a) begun early h = h
    due-AtMostOne now (waiting a) begun early h = send-AtMostOne now a begun early h

    round-AtMostOne :
        (e : Round) (a : Attempt)
        → start ≤ e.now
        → AtMostOne a
        → AtMostOne (attempt_of (round mem pton c e a))
    unfolding round
    round-AtMostOne e a begun h = elim (Bool-cases (leb c.giveup_tick e.now || e.cancelled)) [
      | inl over ↦ rw over h
      | inr on ↦ rw on (
          due-AtMostOne e.now (drain_datagrams mem pton c e.datagrams a) begun (ground arith)
            (drain-AtMostOne e.datagrams a h))
    ]

    rounds-AtMostOne :
        (es : List Round) (a : Attempt)
        → All (λ e. start ≤ e.now) es
        → AtMostOne a
        → AtMostOne (attempt_of (rounds mem pton c es a))
    unfolding rounds
    rounds-AtMostOne [] a begun h = h
    rounds-AtMostOne (e ∷ es) a begun h =
        go (round mem pton c e a) (round-AtMostOne e a begun.0 h)
          (λ a' h'. rounds-AtMostOne es a' begun.1 h')
      where
        go :
            (p : Progress)
            → AtMostOne (attempt_of p)
            → ((a : Attempt) → AtMostOne a → AtMostOne (attempt_of (rounds mem pton c es a)))
            → AtMostOne (
                attempt_of (elim p [
                  | returned ok a' ↦ returned ok a'
                  | waiting a' ↦ rounds mem pton c es a'
                ]))
        go (returned ok a') h ih = h
        go (waiting a') h ih = ih a' h

    -- Where the call is to give up at most 12,800 ms after its start, as with the default timeout of
    -- 12,000 ms, and the clock never goes below the start, at most one request is ever sent: the
    -- first interval is already that long.
    pub rounds_send_once :
        (es : List Round) (a : Attempt)
        → All (λ e. start ≤ e.now) es
        → a.requests ≡ []
        → a.num_tries ≡ 0
        → length (attempt_of (rounds mem pton c es a)).requests ≤ 1
    rounds_send_once es a begun none_sent fresh =
        omega (arith, rounds-AtMostOne es a begun (inl (ap length none_sent, fresh)))
