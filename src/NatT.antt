-- ===== src/NatT.antt =====
-- The NAT traversal rendezvous of softether-core/src/proto/softether_nat_t.c.
pub mod Response
pub mod Connect
pub mod Usable
pub mod Once
