-- ===== src/Accel/Window/Budget.antt =====
-- The send window stays within its ceiling, and the functions here leave the receive queue alone.
use softether_android_client.Base.{
  ℕ, ◌≤◌, ◌≡◌, refl, ◌∙◌, arith, Bool, true, false, if◌then◌else◌, ltb, ◌==◌, ◌&&◌, Bool-cases, inl,
  inr,
}
use softether_android_client.Accel.Context.{Context, is_set}
use softether_android_client.Accel.Window.{
  cwin_max, cwin_refill, cwin_on_loss, cwin_consume, reset_backoff, suspend, check_timing,
  check_overflows, check_suspension, is_send_ready_nolock, is_send_ready,
}

-- What the functions of the window keep.
pub record Keeps (c c' : Context) : Type 0 where
  pub same_queue : c'.recv_queue ≡ c.recv_queue
  pub same_iv : c'.next_iv ≡ c.next_iv
  pub same_iv_v2 : c'.next_iv_v2 ≡ c.next_iv_v2
  pub within : c.cwin_bytes ≤ cwin_max → c'.cwin_bytes ≤ cwin_max

pub Keeps-refl : (c : Context) → Keeps c c
Keeps-refl c = record { same_queue = refl; same_iv = refl; same_iv_v2 = refl; within = λ h. h }

pub Keeps-trans : {a b c : Context} → Keeps a b → Keeps b c → Keeps a c
Keeps-trans p q = record {
  same_queue = q.same_queue ∙ p.same_queue;
  same_iv = q.same_iv ∙ p.same_iv;
  same_iv_v2 = q.same_iv_v2 ∙ p.same_iv_v2;
  within = λ h. q.within (p.within h);
}

pub cwin_refill-Keeps : (c : Context) → Keeps c (cwin_refill c)
unfolding cwin_refill
cwin_refill-Keeps c = record {
  same_queue = ground arith;
  same_iv = ground arith;
  same_iv_v2 = ground arith;
  within = λ h. ground arith;
}

pub cwin_on_loss-Keeps : (c : Context) → Keeps c (cwin_on_loss c)
unfolding cwin_on_loss
cwin_on_loss-Keeps c = record {
  same_queue = refl;
  same_iv = refl;
  same_iv_v2 = refl;
  within = λ h. ground arith;
}

pub cwin_consume-Keeps : (n : ℕ) (c : Context) → Keeps c (cwin_consume n c)
unfolding cwin_consume
cwin_consume-Keeps n c = elim (Bool-cases (n == 0)) [
  | inl z ↦ rw z (Keeps-refl c)
  | inr nz ↦
      let k = cwin_refill-Keeps c in
      rw nz (record {
        same_queue = k.same_queue;
        same_iv = k.same_iv;
        same_iv_v2 = k.same_iv_v2;
        within = λ h. let w = k.within h in ground arith;
      })
]

reset_backoff-Keeps : (c : Context) → Keeps c (reset_backoff c)
unfolding reset_backoff
reset_backoff-Keeps c = record {
  same_queue = ground arith;
  same_iv = ground arith;
  same_iv_v2 = ground arith;
  within = λ h. ground arith;
}

check_overflows-Keeps : (k : Bool) (c : Context) → Keeps c (check_overflows k c).0
unfolding check_overflows check_timing suspend
check_overflows-Keeps k c = record {
  same_queue = ground arith;
  same_iv = ground arith;
  same_iv_v2 = ground arith;
  within = λ h. ground arith;
}

if-Keeps :
    (b : Bool) (c : Context) (x y : Context × Bool)
    → Keeps c x.0
    → Keeps c y.0
    → Keeps c (if b then x else y).0
if-Keeps true c x y p q = p
if-Keeps false c x y p q = q

check_suspension-Keeps : (k : Bool) (c : Context) → Keeps c (check_suspension k c).0
unfolding check_suspension
check_suspension-Keeps k c =
    let again = record c { udp_data_suspended = false; recent_overflows = 0 } in
    let k' = check_overflows-Keeps k again in
    if-Keeps c.udp_data_suspended c _ _
      (if-Keeps (ltb c.now c.udp_data_resume_tick) c _ _ (Keeps-refl c) (record {
        same_queue = k'.same_queue;
        same_iv = k'.same_iv;
        same_iv_v2 = k'.same_iv_v2;
        within = k'.within;
      }))
      (check_overflows-Keeps k c)

pub is_send_ready-Keeps : (k : Bool) (c : Context) → Keeps c (is_send_ready k c).0
unfolding is_send_ready is_send_ready_nolock
is_send_ready-Keeps k c = elim (Bool-cases (c.inited && is_set c.peer_addr)) [
  | inr off ↦ rw off (Keeps-refl c)
  | inl on ↦ rw on (
      Keeps-trans (cwin_refill-Keeps c) (
        Keeps-trans (reset_backoff-Keeps (cwin_refill c))
          (check_suspension-Keeps k (reset_backoff (cwin_refill c)))))
]
