-- ===== src/Accel/Window.antt =====
-- The send window and the suspension of UDP data: `rudp_cwin_refill`, `rudp_cwin_on_loss` and
-- `rudp_is_send_ready`.
pub mod Budget
pub mod Suspension
use softether_android_client.Base.{
  ℕ, ◌+◌, ◌-◌, ◌*◌, ◌/◌, ◌^◌, u32, u64, ltb, leb, ◌==◌, ◌&&◌, ◌||◌, not, if◌then◌else◌, Bool, true,
  false,
}
use softether_android_client.Accel.Context.{Context, is_fast, is_set}

-- RUDP_CWIN_START, RUDP_CWIN_MIN, RUDP_CWIN_MAX and RUDP_CWIN_GROW_BPS
abbrev pub cwin_start : ℕ
cwin_start = 256 * 1024

abbrev pub cwin_min : ℕ
cwin_min = 32 * 1024

abbrev pub cwin_max : ℕ
cwin_max = 8 * 1024 * 1024

abbrev pub cwin_grow_bps : ℕ
cwin_grow_bps = 4 * 1024 * 1024

-- `rudp_cwin_refill`
unfoldable pub cwin_refill : Context → Context
cwin_refill c =
    if not c.cwin_inited
    then record c { cwin_bytes = cwin_start; cwin_last_refill_tick = c.now; cwin_inited = true }
    else if leb c.now c.cwin_last_refill_tick
    then c
    else (let grown =
          u64 (c.cwin_bytes + u64 (cwin_grow_bps * (c.now - c.cwin_last_refill_tick)) / 1000) in
        record c {
          cwin_bytes = if ltb cwin_max grown then cwin_max else grown;
          cwin_last_refill_tick = c.now;
        })

-- `rudp_cwin_on_loss`
unfoldable pub cwin_on_loss : Context → Context
cwin_on_loss c = record c {
  last_loss_event_tick = c.now;
  cwin_bytes = if ltb (c.cwin_bytes / 2) cwin_min then cwin_min else c.cwin_bytes / 2;
}

-- The end of a successful `rudp_send_nolock`.
unfoldable pub cwin_consume : ℕ → Context → Context
cwin_consume data_size c =
    if data_size == 0
    then c
    else (let c' = cwin_refill c in
        record c' {
          cwin_bytes = if leb data_size c'.cwin_bytes then c'.cwin_bytes - data_size else 0;
        })

-- RUDP_KA_TIMEOUT_FAST and RUDP_KA_TIMEOUT
abbrev pub timeout_value : ℕ → ℕ
timeout_value mss = if is_fast mss then 2100 else 9000

-- A clean stretch of RUDP_CLEAN_RESET_MS forgets the suspensions.
unfoldable pub reset_backoff : Context → Context
reset_backoff c =
    if not c.udp_data_suspended
      && (not (c.last_loss_event_tick == 0)
          && (ltb c.last_loss_event_tick c.now && leb 300000 (c.now - c.last_loss_event_tick)))
    then record c { suspension_count = 0; recent_overflows = 0 }
    else c

abbrev pub suspend_shift : ℕ → ℕ
suspend_shift suspension_count = if ltb 3 suspension_count then 3 else suspension_count

unfoldable pub suspend : Context → Context
suspend c = record c {
  suspension_count = u32 (c.suspension_count + 1);
  udp_data_suspended = true;
  udp_data_resume_tick = u64 (c.now + 30000 * 2 ^ suspend_shift c.suspension_count);
}

unfoldable pub check_timing : Bool → Context → Context × Bool
check_timing check_keepalive c =
    if not check_keepalive
    then (c, true)
    else if (c.last_recv_tick == 0) || ltb (u64 (c.last_recv_tick + timeout_value c.mss)) c.now
    then (record c { first_stable_receive_tick = 0 }, false)
    else (c, leb (u64 (c.first_stable_receive_tick + 10000)) c.now && not (c.cwin_bytes == 0))

-- The part of `rudp_is_send_ready_nolock` behind a suspension that is over.
unfoldable pub check_overflows : Bool → Context → Context × Bool
check_overflows check_keepalive c =
    if leb 8 c.recent_overflows then (suspend c, false) else check_timing check_keepalive c

unfoldable pub check_suspension : Bool → Context → Context × Bool
check_suspension check_keepalive c =
    if c.udp_data_suspended
    then if ltb c.now c.udp_data_resume_tick
      then (c, false)
      else check_overflows check_keepalive
          (record c { udp_data_suspended = false; recent_overflows = 0 })
    else check_overflows check_keepalive c

unfoldable pub is_send_ready_nolock : Bool → Context → Context × Bool
is_send_ready_nolock check_keepalive c =
    check_suspension check_keepalive (reset_backoff (cwin_refill c))

-- `rudp_is_send_ready`
unfoldable pub is_send_ready : Bool → Context → Context × Bool
is_send_ready check_keepalive c =
    if c.inited && is_set c.peer_addr then is_send_ready_nolock check_keepalive c else (c, false)
