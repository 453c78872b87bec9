-- ===== src/Channel/Send/RoundRobin.antt =====
-- The choice of the socket to send on goes round the candidates.
use softether_android_client.Base.{
  ℕ, zero, suc, ◌+◌, ◌-◌, ◌%◌, ◌<◌, ◌≡◌, refl, sym, ap, ◌∙◌, arith, length, get_or, ne→==,
}
use native.Mathlib.Nat.{mod-lt, mod-eq_of_lt, mod-add-mod, add-mod-mod, add-mod_right}
use softether_android_client.Channel.Connection.{Connection}
use softether_android_client.Channel.Send.{candidates, select_send_socket}

-- The connection after some choices.
abbrev pub after : ℕ → Connection → Connection
after zero c = c
after (suc k) c = after k (select_send_socket c).0

select_lem :
    (c : Connection)
    → 0 < length (candidates c)
    → select_send_socket c ≡ (
      record c { send_rr_idx = (c.send_rr_idx + 1) % length (candidates c) },
      get_or (candidates c) (c.send_rr_idx % length (candidates c)) 0,
    )
unfolding select_send_socket
select_lem c h = rw (ne→== (length (candidates c)) 0 (omega arith)) refl

pub choice :
    (k : ℕ) (c : Connection)
    → 0 < length (candidates c)
    → (select_send_socket (after k c)).1
      ≡ get_or (candidates c) ((c.send_rr_idx + k) % length (candidates c)) 0
choice zero c h =
    ap (λ (r : Connection × ℕ). r.1) (select_lem c h)
    ∙ ap (λ i. get_or (candidates c) (i % length (candidates c)) 0) (omega arith)
choice (suc k) c h =
    ap (λ (r : Connection × ℕ). (select_send_socket (after k r.0)).1) (select_lem c h)
    ∙ choice k (record c { send_rr_idx = (c.send_rr_idx + 1) % length (candidates c) }) h
    ∙ ap (λ i. get_or (candidates c) i 0)
        (mod-add-mod (c.send_rr_idx + 1) (length (candidates c)) k
          ∙ ap (λ i. i % length (candidates c)) (omega arith))

turn : (r j n : ℕ) → j < n → (r + (j + (n - r % n)) % n) % n ≡ j
turn r j n h =
    add-mod-mod r (j + (n - r % n)) n
    ∙ sym (mod-add-mod r n (j + (n - r % n)))
    ∙ ap (λ i. i % n) (omega (arith, mod-lt r positive))
    ∙ add-mod_right j n
    ∙ mod-eq_of_lt h
  where
    positive : 0 < n
    positive = omega arith

-- Among as many choices in a row as there are sockets that can send, every one of them comes up,
-- wherever the round begins.
pub select_send_socket_turns :
    (c : Connection) (j : ℕ)
    → j < length (candidates c)
    → (k : ℕ) × (k < length (candidates c))
      × ((select_send_socket (after k c)).1 ≡ get_or (candidates c) j 0)
select_send_socket_turns c j h =
    let n = length (candidates c) in
    let k = (j + (n - c.send_rr_idx % n)) % n in
    (
      k,
      mod-lt (j + (n - c.send_rr_idx % n)) (omega arith),
      choice k c (omega arith) ∙ ap (λ i. get_or (candidates c) i 0) (turn c.send_rr_idx j n h),
    )
