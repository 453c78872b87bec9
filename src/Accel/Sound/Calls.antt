-- ===== src/Accel/Sound/Calls.antt =====
-- The calls of softether_rudp.h in whatever order they come.
use softether_android_client.Base.{
  ℕ, ◌≡◌, ap, ◌∙◌, arith, List, [], ◌∷◌, Option, none, some, Bool, true, false, if◌then◌else◌, ltb,
  ◌==◌, length,
}
use softether_android_client.Accel.Context.{Context, Address, recv}
use softether_android_client.Accel.Context.Queue.{recv_lem}
use softether_android_client.Accel.Window.{is_send_ready}
use softether_android_client.Accel.Window.Budget.{is_send_ready-Keeps}
use softether_android_client.Accel.Send.{send}
use softether_android_client.Accel.Send.Fits.{IsAead}
use softether_android_client.Accel.Poll.{
  Datagram, Chance, check_silence, receive_v1, receive_v2, process_opened, receive, receive_all,
  poll_nolock, poll,
}
use softether_android_client.Accel.Sound.{IsSound, Keeps-IsSound, process_inner-IsSound}
use softether_android_client.Accel.Sound.Sends.{if-IsSound, send-IsSound, keepalive-IsSound}

module _ (sha1 : List ℕ → List ℕ) (aead_open : List ℕ → List ℕ → List ℕ → List ℕ → Option (List ℕ))
    (uncompress : List ℕ → Option (List ℕ)) where
  opened-IsSound :
      (from : Address) (m : Option (List ℕ)) (c : Context)
      → IsSound c
      → IsSound (process_opened sha1 aead_open uncompress from m c)
  opened-IsSound from none c s = s
  opened-IsSound from (some inner) c s = process_inner-IsSound uncompress inner from false c s

  receive-IsSound :
      (d : Datagram) (c : Context) → IsSound c → IsSound (receive sha1 aead_open uncompress d c)
  unfolding receive receive_v1 receive_v2
  receive-IsSound d c s = if-sound (ltb (length d.bytes) 25) _ _ s (
      if-sound (c.version == 1) _ _ (process_inner-IsSound uncompress _ d.from true _ s') (
        if-sound (c.version == 2) _ _
          (if-sound (ltb (length d.bytes) 33) _ _ s' (opened-IsSound d.from _ _ s')) s'))
    where
      s' : IsSound (record c { now = d.tick })
      s' = record {
        ring = s.ring;
        budget = s.budget;
        iv_size = s.iv_size;
        iv_v2_size = s.iv_v2_size;
      }

      if-sound : (b : Bool) (x y : Context) → IsSound x → IsSound y → IsSound (if b then x else y)
      if-sound true x y p q = p
      if-sound false x y p q = q

  receive_all-IsSound :
      (ds : List Datagram) (c : Context)
      → IsSound c
      → IsSound (receive_all sha1 aead_open uncompress ds c)
  unfolding receive_all
  receive_all-IsSound [] c s = s
  receive_all-IsSound (d ∷ ds) c s =
      receive_all-IsSound ds (receive sha1 aead_open uncompress d c) (receive-IsSound d c s)

recv_same :
    (max_len : ℕ) (c : Context)
    → ((recv max_len c).0.cwin_bytes ≡ c.cwin_bytes)
      × ((recv max_len c).0.next_iv ≡ c.next_iv)
      × ((recv max_len c).0.next_iv_v2 ≡ c.next_iv_v2)
unfolding recv
recv_same max_len c = (ground arith, ground arith, ground arith)

-- A call of the interface with what its environment gives.
pub data Call : Type 0 where
  sending : ℕ → Bool → ℕ → List ℕ → ℕ → Call
  polling : ℕ → Chance → List Datagram → Call
  receiving : ℕ → Call
  asking : Bool → Call

module _ (sha1 : List ℕ → List ℕ) (aead : List ℕ → List ℕ → List ℕ → List ℕ × List ℕ)
    (aead_open : List ℕ → List ℕ → List ℕ → List ℕ → Option (List ℕ))
    (compress uncompress : List ℕ → Option (List ℕ)) where
  abbrev pub run_call : Call → Context → Context
  run_call (sending now sent r bs flag) c = (send sha1 aead compress now sent r bs flag c).0
  run_call (polling now r ds) c = (poll sha1 aead aead_open compress uncompress now r ds c).0
  run_call (receiving max_len) c = (recv max_len c).0
  run_call (asking check_keepalive) c = (is_send_ready check_keepalive c).0

  abbrev pub run : List Call → Context → Context
  run [] c = c
  run (x ∷ xs) c = run xs (run_call x c)

  check_silence-IsSound :
      (now : ℕ) (c : Context) → IsSound c → IsSound (check_silence (record c { now = now }))
  unfolding check_silence
  check_silence-IsSound now c s =
      Keeps-IsSound
        (record {
          same_queue = ground arith;
          same_iv = ground arith;
          same_iv_v2 = ground arith;
          within = λ h. ground arith;
        })
        s

  module _ (lawful : IsAead aead) where
    run_call-IsSound : (x : Call) (c : Context) → IsSound c → IsSound (run_call x c)
    unfolding poll poll_nolock
    run_call-IsSound (sending now sent r bs flag) c s =
        send-IsSound sha1 aead compress lawful now sent r bs flag c s
    run_call-IsSound (polling now r ds) c s =
        if-IsSound c.inited _ _
          (receive_all-IsSound sha1 aead_open uncompress ds _
            (keepalive-IsSound sha1 aead compress lawful r _ (check_silence-IsSound now c s)))
          s
    run_call-IsSound (receiving max_len) c s = record {
      ring = (recv_lem max_len c s.ring).0;
      budget = omega (arith, (recv_same max_len c).0, s.budget);
      iv_size = ap length (recv_same max_len c).1 ∙ s.iv_size;
      iv_v2_size = ap length (recv_same max_len c).2 ∙ s.iv_v2_size;
    }
    run_call-IsSound (asking check_keepalive) c s =
        Keeps-IsSound (is_send_ready-Keeps check_keepalive c) s

    -- Whatever calls of `rudp_send`, `rudp_poll`, `rudp_recv` and `rudp_is_send_ready` come in
    -- whatever order, with any datagrams from the network, clocks and random numbers: the receive
    -- queue stays a ring of at most 256 blocks, the send window stays within its 8 MB, and the
    -- vectors of both versions keep their sizes.
    pub run-IsSound : (xs : List Call) (c : Context) → IsSound c → IsSound (run xs c)
    run-IsSound [] c s = s
    run-IsSound (x ∷ xs) c s = run-IsSound xs (run_call x c) (run_call-IsSound x c s)
