-- ===== src/Accel.antt =====
-- The UDP acceleration of softether_rudp.c: `rudp_context_t` and the functions that work on it.
-- `pthread_mutex_lock` makes them run one at a time.
pub mod Context
pub mod Init
pub mod Window
pub mod Receive
pub mod Send
pub mod Poll
pub mod Sound
pub mod Exchange
