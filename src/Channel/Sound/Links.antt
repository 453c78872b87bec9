-- ===== src/Channel/Sound/Links.antt =====
-- Sockets that come and go keep a connection valid.
use softether_android_client.Base.{
  ℕ, suc, ◌+◌, ◌≡◌, refl, ap, ◌∙◌, sym, subst, arith, Option, none, some, List, [], ◌∷◌,
  if◌then◌else◌, if_both, Bool-cases, inl, inr, set, Bool, true,
}
use softether_android_client.Channel.Connection.{
  Connection, TcpSock, is_connected, is_down, active_count,
}
use softether_android_client.Channel.Receive.Counts.{IsValid}
use softether_android_client.Channel.Calls.{free_slot}
use softether_android_client.Channel.Links.{
  Accepted, socket_of, add_socket, settle, additional_connect, additional_connect_thread,
  closed_all, close_additional, disconnect,
}

-- A free slot that is filled is one more in use.
free_slot_lem :
    (t : TcpSock) (j k : ℕ) (ts : List TcpSock)
    → t.active ≡ true
    → free_slot j ts ≡ some k
    → (i : ℕ) × (k ≡ j + i) × (active_count (set ts i t) ≡ suc (active_count ts))
free_slot_lem t j k [] h e = absurd (cc e)
free_slot_lem t j k (x ∷ ts) h e = elim (Bool-cases x.active) [
  | inl busy ↦
      let (i, at, counts) =
        free_slot_lem t (j + 1) k ts h
          (ap (λ (b : Bool). if b then free_slot (j + 1) ts else some j) (sym busy) ∙ e) in
      (suc i, omega (arith, at), omega (arith, counts))
  | inr free ↦
      let first : some j ≡ some k =
        ap (λ (b : Bool). if b then free_slot (j + 1) ts else some j) (sym free) ∙ e in
      let same : j ≡ k = cc first in (0, omega (arith, same), rw (h, free) (omega arith))
]

closed_all-active_count : (ts : List TcpSock) → active_count (closed_all ts) ≡ 0
closed_all-active_count [] = refl
closed_all-active_count (t ∷ ts) = elim (Bool-cases t.active) [
  | inl busy ↦ rw busy (omega (arith, closed_all-active_count ts))
  | inr free ↦ rw free (omega (arith, closed_all-active_count ts))
]

settle-IsValid :
    (a : Option Accepted) (c : Connection) (o : Option ℕ)
    → free_slot 0 c.additional ≡ o
    → IsValid c
    → IsValid (settle a c o)
unfolding add_socket
settle-IsValid a c none e v = v
settle-IsValid none c (some k) e v = record { ring = v.ring; counted = v.counted }
settle-IsValid (some a) c (some k) e v =
    let (i, at, counts) = free_slot_lem (socket_of a) 0 k c.additional refl e in
    let same : i ≡ k = omega (arith, at) in
    record {
      ring = v.ring;
      counted =
          subst (λ j. c.num_additional + 1 ≡ active_count (set c.additional j (socket_of a))) same
            (omega (arith, counts, v.counted));
    }

additional_connect-IsValid :
    (a : Option Accepted) (c : Connection) → IsValid c → IsValid (additional_connect a c)
unfolding additional_connect
additional_connect-IsValid a c v =
    if_both IsValid (is_connected c.state) _ _
      (settle-IsValid a c (free_slot 0 c.additional) refl v) v

pub additional_connect_thread-IsValid :
    (a : Option Accepted) (c : Connection) → IsValid c → IsValid (additional_connect_thread a c)
unfolding additional_connect_thread
additional_connect_thread-IsValid a c v =
    let v' = additional_connect-IsValid a c v in record { ring = v'.ring; counted = v'.counted }

pub close_additional-IsValid : (c : Connection) → IsValid c → IsValid (close_additional c)
unfolding close_additional
close_additional-IsValid c v = record {
  ring = v.ring;
  counted = sym (closed_all-active_count c.additional);
}

pub disconnect-IsValid : (b : Bool) (c : Connection) → IsValid c → IsValid (disconnect b c)
unfolding disconnect
disconnect-IsValid b c v =
    let v' = close_additional-IsValid c v in
    if_both IsValid (is_down c.state) _ _ v record { ring = v'.ring; counted = v'.counted }
