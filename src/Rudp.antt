-- ===== src/Rudp.antt =====
-- The R-UDP transport of softether-core/src/proto/rudp_transport.c.
pub mod Fifo
pub mod Session
pub mod Packet
pub mod Send
pub mod Interrupt
pub mod Framing
