-- ===== src/Channel/Send/Failover.antt =====
-- A block goes to the first socket that takes it.
use softether_android_client.Base.{
  ℕ, zero, suc, ◌≤◌, ◌<◌, ◌≡◌, refl, sym, ◌∙◌, subst, arith, List, [], ◌∷◌, length, get_or, set,
  Bool, true, false, not, ◌&&◌, ◌||◌, Bool-cases, ◌⊎◌, inl, inr, ltb, ◌==◌, and_left, and_right,
  ltb→lt, ==→eq,
}
use softether_android_client.Channel.Stream.{Write}
use softether_android_client.Channel.Stream.Flow.{Outcome, write_all-Outcome}
use softether_android_client.Channel.Connection.{
  Connection, TcpSock, State, is_disconnecting, is_down, is_open, slot, shut, IsCounted,
  retire-IsCounted, unused, retire,
}
use softether_android_client.Channel.Send.Order.{
  any, any-ext, send_order-any, select_send_socket-Member, selected,
}
use softether_android_client.Channel.Send.{
  Sent, candidates, select_send_socket, send_order, data_write_all, usable, write_to, write_failed,
  try_candidates, transmit_block_nolock,
}

-- What a log of tries shows: all fail with a proper part of the block written, but for the last when
-- the block was sent, which wrote all of it.
abbrev pub Tried : List ℕ → Sent → Bool → Type 0
Tried block [] true = 1 ≤ 0
Tried block [] false = Unit
Tried block ((i, sent) ∷ log) ok =
    ((log ≡ []) × (ok ≡ true) × (sent ≡ block)) ⊎ (Outcome block (sent, false) × Tried block log ok)

get_or-set :
    {A : Type 0} (ts : List A) (k j : ℕ) (t d : A)
    → (j == k) ≡ false
    → get_or (set ts k t) j d ≡ get_or ts j d
get_or-set [] k j t d h = refl
get_or-set (x ∷ ts) zero zero t d h = absurd (cc h)
get_or-set (x ∷ ts) zero (suc j) t d h = refl
get_or-set (x ∷ ts) (suc k) zero t d h = refl
get_or-set (x ∷ ts) (suc k) (suc j) t d h = get_or-set ts k j t d (ground (arith, h))

set-inactive :
    (ts : List TcpSock) (k : ℕ) (t : TcpSock)
    → t.active ≡ false
    → (get_or (set ts k t) k unused).active ≡ false
set-inactive [] k t h = refl
set-inactive (x ∷ ts) zero t h = h
set-inactive (x ∷ ts) (suc k) t h = set-inactive ts k t h

module _ (block : List ℕ) (writes : ℕ → List Write) where
  -- Whether a socket would take the block.
  unfoldable pub accepts : Connection → ℕ → Bool
  accepts c i = usable i c && (write_to i c block (writes i)).1

  accepts-retired : (k : ℕ) (c : Connection) → accepts (retire k c) (suc k) ≡ false
  unfolding accepts usable retire
  accepts-retired k c = rw (set-inactive c.additional k (shut (slot k c)) refl) refl

  accepts-retire :
      (k j : ℕ) (c : Connection)
      → (j == k) ≡ false
      → accepts (retire k c) (suc j) ≡ accepts c (suc j)
  unfolding accepts usable retire write_to
  accepts-retire k j c h = rw (get_or-set c.additional k j (shut (slot k c)) unused h) refl

  -- A socket that failed does not change what the others take.
  accepts-failed :
      (i j : ℕ) (c : Connection) → accepts c i ≡ false → accepts (write_failed i c) j ≡ accepts c j
  unfolding write_failed
  accepts-failed zero j c h = refl
  accepts-failed (suc k) zero c h = unfold accepts retire usable write_to data_write_all in refl
  accepts-failed (suc k) (suc j) c h = elim (Bool-cases (j == k)) [
    | inl same ↦
        subst (λ x. accepts (retire k c) (suc x) ≡ accepts c (suc x)) (sym (==→eq j k same))
          (accepts-retired k c ∙ sym h)
    | inr other ↦ accepts-retire k j c other
  ]

  try_candidates-any :
      (is : List ℕ) (c : Connection) → (try_candidates block writes is c).1 ≡ any (accepts c) is
  unfolding try_candidates accepts
  try_candidates-any [] c = refl
  try_candidates-any (i ∷ is) c = elim (Bool-cases (usable i c)) [
    | inl up ↦ elim (Bool-cases (write_to i c block (writes i)).1) [
      | inl ok ↦ rw (up, ok) refl
      | inr broken ↦
          let fails : accepts c i ≡ false = rw (up, broken) refl in
          rw (up, broken)
            (try_candidates-any is (write_failed i c)
              ∙ any-ext _ _ is (λ j. accepts-failed i j c fails))
    ]
    | inr down ↦ rw down (try_candidates-any is c)
  ]

  pub write_to-Outcome : (i : ℕ) (c : Connection) → Outcome block (write_to i c block (writes i))
  unfolding write_to data_write_all
  write_to-Outcome zero c = elim (Bool-cases (is_down c.state && ltb 0 (length block))) [
    | inl down ↦ rw down (none_written block (down-length c.state block down))
    | inr up ↦ rw up (write_all-Outcome c.use_ssl_data block (writes 0))
  ]
    where
      none_written : (bs : List ℕ) → 0 < length bs → Outcome bs ([], false)
      none_written [] h = absurd (omega arith)
      none_written (b ∷ bs) h = (b, bs, refl)

      down-length :
          (s : State) (bs : List ℕ) → (is_down s && ltb 0 (length bs)) ≡ true → 0 < length bs
      down-length s bs h = ltb→lt _ _ (and_right (is_down s) (ltb 0 (length bs)) h)
  write_to-Outcome (suc k) c = write_all-Outcome c.use_ssl_data block (writes (suc k))

  usable-active : (k : ℕ) (c : Connection) → usable (suc k) c ≡ true → (slot k c).active ≡ true
  unfolding usable
  usable-active k c h =
      let t = slot k c in
      and_left t.active t.ssl (and_left (t.active && t.ssl) (is_open t.socket_fd) h)

  write_failed-IsCounted :
      (i : ℕ) (c : Connection) → usable i c ≡ true → IsCounted c → IsCounted (write_failed i c)
  unfolding write_failed
  write_failed-IsCounted zero c h e = e
  write_failed-IsCounted (suc k) c h e = retire-IsCounted k c (usable-active k c h) e

  pub outcome_of :
      (ok : Bool) (r : List ℕ × Bool) → r.1 ≡ ok → Outcome block r → Outcome block (r.0, ok)
  outcome_of ok r e h = subst (λ b. Outcome block (r.0, b)) e h

  try_candidates-Tried :
      (is : List ℕ) (c : Connection)
      → IsCounted c
      → Tried block (try_candidates block writes is c).0.1 (try_candidates block writes is c).1
        × IsCounted (try_candidates block writes is c).0.0
  unfolding try_candidates
  try_candidates-Tried [] c e = (tt, e)
  try_candidates-Tried (i ∷ is) c e = elim (Bool-cases (usable i c)) [
    | inl up ↦ elim (Bool-cases (write_to i c block (writes i)).1) [
      | inl ok ↦ rw (up, ok) (inl (refl, refl, outcome_of true _ ok (write_to-Outcome i c)), e)
      | inr broken ↦
          let ih = try_candidates-Tried is (write_failed i c) (write_failed-IsCounted i c up e) in
          rw (up, broken) (inr (outcome_of false _ broken (write_to-Outcome i c), ih.0), ih.1)
    ]
    | inr down ↦ rw down (try_candidates-Tried is c e)
  ]

  accepts-selected :
      (c : Connection) (n i : ℕ) → accepts (record c { send_rr_idx = n }) i ≡ accepts c i
  unfolding accepts usable write_to data_write_all
  accepts-selected c n zero = refl
  accepts-selected c n (suc k) = refl

  selected-any :
      (c : Connection)
      → any
          (accepts (select_send_socket c).0)
          (send_order (select_send_socket c).1 (select_send_socket c).0)
        ≡ any (accepts c) (candidates c)
  unfolding send_order
  selected-any c =
      selected
        (λ (d : Connection).
          any (accepts d) (send_order (select_send_socket c).1 d) ≡ any (accepts c) (candidates c))
        c
        (λ n.
          any-ext _ _ (send_order (select_send_socket c).1 c) (accepts-selected c n)
          ∙ send_order-any (accepts c) (select_send_socket c).1 c (select_send_socket-Member c))

  -- `softether_transmit_block_nolock` succeeds exactly when the block has its header, the connection
  -- is not on its way down, and some socket that can send takes the block: which one is chosen, and
  -- which fail before it, makes no difference.
  pub transmit_block_nolock_lem :
      (c : Connection)
      → (transmit_block_nolock block writes c).1 ≡ (
          not (ltb (length block) 8)
          && (not (is_disconnecting c.state || not c.ssl) && any (accepts c) (candidates c)))
  unfolding transmit_block_nolock
  transmit_block_nolock_lem c = elim (Bool-cases (ltb (length block) 8)) [
    | inl short ↦ rw short refl
    | inr whole ↦ elim (Bool-cases (is_disconnecting c.state || not c.ssl)) [
      | inl down ↦ rw (whole, down) refl
      | inr up ↦
          rw (whole, up)
            (try_candidates-any (send_order (select_send_socket c).1 (select_send_socket c).0)
                (select_send_socket c).0
              ∙ selected-any c)
    ]
  ]

  -- The sockets that `softether_transmit_block_nolock` writes to before the one that takes the block
  -- each get a proper part of it, none gets the block twice, and when it fails all that it wrote to
  -- got a proper part. `num_additional` stays the number of the additional sockets in use.
  pub transmit_block_nolock-Tried :
      (c : Connection)
      → IsCounted c
      → Tried block
          (transmit_block_nolock block writes c).0.1
          (transmit_block_nolock block writes c).1
        × IsCounted (transmit_block_nolock block writes c).0.0
  unfolding transmit_block_nolock
  transmit_block_nolock-Tried c e = elim (Bool-cases (ltb (length block) 8)) [
    | inl short ↦ rw short (tt, e)
    | inr whole ↦ elim (Bool-cases (is_disconnecting c.state || not c.ssl)) [
      | inl down ↦ rw (whole, down) (tt, e)
      | inr up ↦
          rw (whole, up)
            (try_candidates-Tried (send_order (select_send_socket c).1 (select_send_socket c).0)
              (select_send_socket c).0 (selected IsCounted c (λ n. e)))
    ]
  ]
