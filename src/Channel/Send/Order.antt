-- ===== src/Channel/Send/Order.antt =====
-- The candidates for a block, in whatever order they are tried.
use softether_android_client.Base.{
  ℕ, zero, suc, ◌+◌, ◌<◌, ◌≤◌, ◌≡◌, refl, sym, ap, ap₂, ◌∙◌, arith, List, [], ◌∷◌, ◌++◌, length,
  get_or, Bool, true, false, ◌&&◌, ◌||◌, Bool-cases, ◌≢◌, ◌%◌, ◌⊎◌, inl, inr, ◌==◌, ==→eq, ==→ne,
  ne→==,
}
use native.Mathlib.Nat.{mod-lt}
use mathlib.Core.Bool.{or_assoc}
use softether_android_client.Channel.Connection.{Connection, TcpSock, can_send}
use softether_android_client.Channel.Send.{
  additional_candidates, primary_candidate, candidates, without, send_order, select_send_socket,
}

abbrev pub any : (ℕ → Bool) → List ℕ → Bool
any f [] = false
any f (i ∷ is) = f i || any f is

pub any-ext : (f g : ℕ → Bool) (is : List ℕ) → ((i : ℕ) → f i ≡ g i) → any f is ≡ any g is
any-ext f g [] h = refl
any-ext f g (i ∷ is) h = ap₂ ◌||◌ (h i) (any-ext f g is h)

abbrev Member : ℕ → List ℕ → Type 0
Member i [] = 1 ≤ 0
Member i (j ∷ is) = (i ≡ j) ⊎ Member i is

any-Member : (f : ℕ → Bool) (i : ℕ) (is : List ℕ) → Member i is → f i ≡ true → any f is ≡ true
any-Member f i [] m h = absurd (omega (arith, m))
any-Member f i (j ∷ is) (inl e) h = rw (← e, h) refl
any-Member f i (j ∷ is) (inr m) h = rw (any-Member f i is m h) (or_true (f j))
  where
    or_true : (b : Bool) → (b || true) ≡ true
    or_true true = refl
    or_true false = refl

any-append : (f : ℕ → Bool) (is js : List ℕ) → any f (is ++ js) ≡ (any f is || any f js)
any-append f [] js = refl
any-append f (i ∷ is) js = rw (any-append f is js) (sym (or_assoc (f i) (any f is) (any f js)))

-- Leaving out a candidate that does not take it makes no difference.
any-without : (f : ℕ → Bool) (k : ℕ) (is : List ℕ) → f k ≡ false → any f (without k is) ≡ any f is
any-without f k [] h = refl
any-without f k (i ∷ is) h = elim (Bool-cases (i == k)) [
  | inl same ↦ rw (same, any-without f k is h, ==→eq i k same, h) refl
  | inr other ↦ rw (other, any-without f k is h) refl
]

Member-get_or : (is : List ℕ) (i : ℕ) → i < length is → Member (get_or is i 0) is
Member-get_or [] i h = absurd (omega arith)
Member-get_or (j ∷ is) zero h = inl refl
Member-get_or (j ∷ is) (suc i) h = inr (Member-get_or is i (omega arith))

without-additional :
    (k : ℕ) (ts : List TcpSock)
    → without 0 (additional_candidates k ts) ≡ additional_candidates k ts
without-additional k [] = refl
without-additional k (t ∷ ts) = elim (Bool-cases (t.active && can_send t.direction)) [
  | inl fit ↦ rw (fit, ne→== (k + 1) 0 (omega arith), without-additional (k + 1) ts) refl
  | inr unfit ↦ rw unfit (without-additional (k + 1) ts)
]

-- The order begins with the chosen socket and holds the candidates.
pub send_order-any :
    (f : ℕ → Bool) (best : ℕ) (c : Connection)
    → (best ≡ 0) ⊎ Member best (candidates c)
    → any f (send_order best c) ≡ any f (candidates c)
unfolding send_order
send_order-any f best c m = elim (Bool-cases (best == 0)) [
  | inl first ↦ rw (first, ==→eq best 0 first, without-additional 0 c.additional) refl
  | inr later ↦ elim (Bool-cases (f best)) [
    | inl takes ↦
        rw (later, takes)
          (sym (any-Member f best (candidates c) (chosen m (==→ne best 0 later)) takes))
    | inr refuses ↦
        let adds = additional_candidates 0 c.additional in
        rw (later, refuses)
          (any-append f (primary_candidate c) (without best adds)
            ∙ ap (λ b. any f (primary_candidate c) || b) (any-without f best adds refuses)
            ∙ sym (any-append f (primary_candidate c) adds))
  ]
]
  where
    chosen : (best ≡ 0) ⊎ Member best (candidates c) → ◌≢◌ best 0 → Member best (candidates c)
    chosen (inl e) h = absurd (h e)
    chosen (inr m) h = m

pub select_send_socket-Member :
    (c : Connection)
    → ((select_send_socket c).1 ≡ 0) ⊎ Member (select_send_socket c).1 (candidates c)
unfolding select_send_socket
select_send_socket-Member c = elim (Bool-cases (length (candidates c) == 0)) [
  | inl empty ↦ rw empty (inl refl)
  | inr some_there ↦
      let positive : 0 < length (candidates c) =
        omega (arith, ==→ne (length (candidates c)) 0 some_there) in
      rw some_there (
        inr (
          Member-get_or (candidates c) (c.send_rr_idx % length (candidates c))
            (mod-lt c.send_rr_idx positive)))
]

-- The choice of a socket moves the round on and changes nothing else.
pub selected :
    (P : Connection → Type 0) (c : Connection)
    → ((n : ℕ) → P (record c { send_rr_idx = n }))
    → P (select_send_socket c).0
unfolding select_send_socket
selected P c h = elim (Bool-cases (length (candidates c) == 0)) [
  | inl empty ↦ rw empty (h c.send_rr_idx)
  | inr some_there ↦ rw some_there (h ((c.send_rr_idx + 1) % length (candidates c)))
]
