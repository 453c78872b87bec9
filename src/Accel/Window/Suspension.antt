-- ===== src/Accel/Window/Suspension.antt =====
-- The suspension of UDP data after a run of overflows, and the floor of the window after a loss.
use softether_android_client.Base.{ℕ, ◌/◌, ◌≤◌, ◌≡◌, ◌⊎◌, arith, List, [], ◌∷◌, Bool, true}
use softether_android_client.Accel.Context.{Context, set_tick}
use softether_android_client.Accel.Window.{cwin_min, cwin_on_loss, is_send_ready_nolock}

-- The fields that decide about a suspension.
pub record SameSuspension (c c' : Context) : Type 0 where
  pub now : c'.now ≡ c.now
  pub suspended : c'.udp_data_suspended ≡ c.udp_data_suspended
  pub resume : c'.udp_data_resume_tick ≡ c.udp_data_resume_tick
  pub overflows : c'.recent_overflows ≡ c.recent_overflows
  pub count : c'.suspension_count ≡ c.suspension_count
  pub loss : c'.last_loss_event_tick ≡ c.last_loss_event_tick

-- A suspension that runs up to a tick.
record IsPaused (until : ℕ) (c : Context) : Type 0 where
  on : c.udp_data_suspended ≡ true
  resume : c.udp_data_resume_tick ≡ until

-- The answers of `rudp_is_send_ready_nolock` at some ticks.
abbrev pub answers : List (Bool × ℕ) → Context → List Bool
answers [] c = []
answers ((k, t) ∷ asked) c =
    let r = is_send_ready_nolock k (set_tick t c) in r.1 ∷ answers asked r.0

-- A detected loss leaves the window between its floor and the larger of the floor and half of what
-- it was: an exhausted window grows to the floor.
pub cwin_on_loss_lem :
    (c : Context)
    → (cwin_min ≤ (cwin_on_loss c).cwin_bytes)
      × (((cwin_on_loss c).cwin_bytes ≡ cwin_min)
          ⊎ ((cwin_on_loss c).cwin_bytes ≡ c.cwin_bytes / 2))
unfolding cwin_on_loss
cwin_on_loss_lem c = (ground arith, ground arith)
