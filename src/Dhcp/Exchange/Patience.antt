-- ===== src/Dhcp/Exchange/Patience.antt =====
-- How long `wait_dhcp_response` waits.
use softether_android_client.Base.{
  ℕ, ◌+◌, ◌≡◌, refl, arith, some, List, [], ◌∷◌, ltb, if◌then◌else◌, Bool-cases, inl, inr, All,
  ge→ltb, lt→ltb, ltb→lt, ltb→ge, ap, ◌∙◌, ◌≤◌, ◌<◌,
}
use softether_android_client.Dhcp.Parse.{Lease, parse_dhcp_response}
use softether_android_client.Dhcp.Exchange.{
  Round, silent, failing, frame, timed_out, pending, wait_dhcp_response,
}

-- A round without an answer: silence, or a frame that the parser ignores and that stores nothing.
abbrev pub Idle : ℕ → List ℕ → Lease → Round → Type 0
Idle xid mac r silent = Unit
Idle xid mac r failing = ⊥
Idle xid mac r (frame bs) = parse_dhcp_response bs xid mac r ≡ some (0, r)

abbrev pub silence : List Round → ℕ
silence [] = 0
silence (silent ∷ rs) = 100 + silence rs
silence (failing ∷ rs) = silence rs
silence (frame bs ∷ rs) = silence rs

module _ (xid : ℕ) (mac : List ℕ) (timeout_ms elapsed : ℕ) (rest : List Round) (r : Lease) where
  wait_over :
      (x : Round)
      → timeout_ms ≤ elapsed
      → (wait_dhcp_response xid mac timeout_ms elapsed (x ∷ rest) r).0 ≡ timed_out
  unfolding wait_dhcp_response
  wait_over silent over = rw (ge→ltb elapsed timeout_ms over, wait_dhcp_response) refl
  wait_over failing over = rw (ge→ltb elapsed timeout_ms over, wait_dhcp_response) refl
  wait_over (frame bs) over = rw (ge→ltb elapsed timeout_ms over, wait_dhcp_response) refl

  wait_silent :
      elapsed < timeout_ms
      → wait_dhcp_response xid mac timeout_ms elapsed (silent ∷ rest) r
        ≡ wait_dhcp_response xid mac timeout_ms (elapsed + 100) rest r
  unfolding wait_dhcp_response
  wait_silent early = rw (lt→ltb elapsed timeout_ms early, wait_dhcp_response) refl

  wait_frame :
      (bs : List ℕ)
      → elapsed < timeout_ms
      → parse_dhcp_response bs xid mac r ≡ some (0, r)
      → wait_dhcp_response xid mac timeout_ms elapsed (frame bs ∷ rest) r
        ≡ wait_dhcp_response xid mac timeout_ms elapsed rest r
  unfolding wait_dhcp_response
  wait_frame bs early ignored =
      rw (lt→ltb elapsed timeout_ms early, wait_dhcp_response, ignored) refl

silence_over :
    (timeout_ms elapsed n : ℕ)
    → timeout_ms ≤ elapsed
    → timed_out ≡ (if ltb (elapsed + n) timeout_ms then pending else timed_out)
silence_over timeout_ms elapsed n over = rw (ge→ltb (elapsed + n) timeout_ms (omega arith)) refl

-- As long as no answer comes, `wait_dhcp_response` ends at its time-out exactly when the rounds in
-- which no frame came add up to it. Frames for others take no time off: however many come, they
-- alone never end the wait.
pub wait_dhcp_response-Idle :
    (xid : ℕ) (mac : List ℕ) (timeout_ms elapsed : ℕ) (rounds : List Round) (r : Lease)
    → All (Idle xid mac r) rounds
    → (wait_dhcp_response xid mac timeout_ms elapsed rounds r).0
      ≡ (if ltb (elapsed + silence rounds) timeout_ms then pending else timed_out)
unfolding wait_dhcp_response
wait_dhcp_response-Idle xid mac timeout_ms elapsed [] r idle = ground arith
wait_dhcp_response-Idle xid mac timeout_ms elapsed (silent ∷ rest) r (i, idle) =
    elim (Bool-cases (ltb elapsed timeout_ms)) [
      | inl e ↦
          ap (λ w. w.0)
            (wait_silent xid mac timeout_ms elapsed rest r (ltb→lt elapsed timeout_ms e))
          ∙ wait_dhcp_response-Idle xid mac timeout_ms (elapsed + 100) rest r idle
          ∙ ap (λ (n : ℕ). if ltb n timeout_ms then pending else timed_out) (omega arith)
      | inr e ↦
          let over = ltb→ge elapsed timeout_ms e in
          wait_over xid mac timeout_ms elapsed rest r silent over
          ∙ silence_over timeout_ms elapsed (100 + silence rest) over
    ]
wait_dhcp_response-Idle xid mac timeout_ms elapsed (failing ∷ rest) r (i, idle) = absurd i
wait_dhcp_response-Idle xid mac timeout_ms elapsed (frame bs ∷ rest) r (i, idle) =
    elim (Bool-cases (ltb elapsed timeout_ms)) [
      | inl e ↦
          ap (λ w. w.0)
            (wait_frame xid mac timeout_ms elapsed rest r bs (ltb→lt elapsed timeout_ms e) i)
          ∙ wait_dhcp_response-Idle xid mac timeout_ms elapsed rest r idle
      | inr e ↦
          let over = ltb→ge elapsed timeout_ms e in
          wait_over xid mac timeout_ms elapsed rest r (frame bs) over
          ∙ silence_over timeout_ms elapsed (silence rest) over
    ]
