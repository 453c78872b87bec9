-- ===== src/Accel/Sound.antt =====
-- What every call on a context keeps: the receive side.
pub mod Sends
pub mod Calls
use softether_android_client.Base.{
  ℕ, suc, ◌+◌, ◌-◌, ◌%◌, ◌≤◌, ◌<◌, ◌≡◌, refl, sym, ap, subst, ◌∙◌, arith, List, [], ◌∷◌, ◌++◌,
  Option, none, some, Bool, true, false, if◌then◌else◌, ltb, leb, ◌==◌, ◌&&◌, ◌||◌, not, length,
  length-append, length-drop, length-take, Bool-cases, Option-cases, inl, inr, ltb→lt, take, drop,
}
use softether_android_client.Crypto.Rc4.{rc4_crypt}
use softether_android_client.Accel.Context.{Context, Ring, Address, is_set, enqueue, recv}
use softether_android_client.Accel.Context.Queue.{IsRing, enqueue_lem, recv_lem}
use softether_android_client.Accel.Window.{cwin_max, cwin_on_loss, cwin_consume, is_send_ready}
use softether_android_client.Accel.Window.Budget.{
  Keeps, Keeps-refl, Keeps-trans, cwin_on_loss-Keeps, cwin_consume-Keeps, is_send_ready-Keeps,
}
use softether_android_client.Accel.Receive.{
  Inner, read_inner, accept, accept_read, note_ticks, note_gap, note_peer, note_timing,
  queue_payload, queue_block, process_inner, outside_window,
}

pub record IsSound (c : Context) : Type 0 where
  pub ring : IsRing c.recv_queue
  pub budget : c.cwin_bytes ≤ cwin_max
  pub iv_size : length c.next_iv ≡ 20
  pub iv_v2_size : length c.next_iv_v2 ≡ 12

pub Keeps-IsSound : {c c' : Context} → Keeps c c' → IsSound c → IsSound c'
Keeps-IsSound k s = record {
  ring = subst IsRing (sym k.same_queue) s.ring;
  budget = k.within s.budget;
  iv_size = ap length k.same_iv ∙ s.iv_size;
  iv_v2_size = ap length k.same_iv_v2 ∙ s.iv_v2_size;
}

notes-Keeps :
    (from : Address) (i : Inner) (c : Context)
    → Keeps c (note_timing (note_peer from (note_gap i (note_ticks i c))))
unfolding note_timing note_peer note_gap note_ticks cwin_on_loss
notes-Keeps from i c = record {
  same_queue = ground arith;
  same_iv = ground arith;
  same_iv_v2 = ground arith;
  within = λ h. ground arith;
}

queue_block-IsSound : (bs : List ℕ) (c : Context) → IsSound c → IsSound (queue_block bs c)
unfolding queue_block
queue_block-IsSound bs c s = elim (Bool-cases (ltb 1600 (length bs))) [
  | inl long ↦ rw long s
  | inr short ↦ elim (Bool-cases (ltb c.recv_queue.count 256)) [
    | inl room ↦
        rw (short, room)
          (record {
            ring = (enqueue_lem c.recv_queue bs s.ring (ltb→lt _ _ room)).0;
            budget = s.budget;
            iv_size = s.iv_size;
            iv_v2_size = s.iv_v2_size;
          })
    | inr full ↦
        rw (short, full)
          (Keeps-IsSound (cwin_on_loss-Keeps _) (record {
            ring = s.ring;
            budget = s.budget;
            iv_size = s.iv_size;
            iv_v2_size = s.iv_v2_size;
          }))
  ]
]

module _ (uncompress : List ℕ → Option (List ℕ)) where
  queue_payload-IsSound :
      (i : Inner) (c : Context) → IsSound c → IsSound (queue_payload uncompress i c).0
  unfolding queue_payload
  queue_payload-IsSound i c s = elim (Bool-cases (length i.payload == 0)) [
    | inl no_data ↦ rw no_data s
    | inr some_data ↦ elim (Bool-cases (i.flag % 2 == 1)) [
      | inr plain ↦ rw (some_data, plain) (queue_block-IsSound i.payload c s)
      | inl packed ↦ elim (Option-cases (uncompress i.payload)) [
        | inl bad ↦ rw (some_data, packed, bad) s
        | inr (bs, good) ↦ rw (some_data, packed, good) (queue_block-IsSound bs c s)
      ]
    ]
  ]

  pub process_inner-IsSound :
      (buf : List ℕ) (from : Address) (verify : Bool) (c : Context)
      → IsSound c
      → IsSound (process_inner uncompress buf from verify c).0
  unfolding process_inner accept
  process_inner-IsSound buf from verify c s = go (read_inner c.my_cookie verify buf)
    where
      go : (m : Option Inner) → IsSound (accept_read uncompress from m c).0
      go none = s
      go (some i) = elim (Bool-cases (outside_window i.my_tick c)) [
        | inl outside ↦ rw outside s
        | inr inside ↦
            rw inside (queue_payload-IsSound i _ (Keeps-IsSound (notes-Keeps from i c) s))
      ]
