-- ===== src/Tests.antt =====
-- Tests on concrete data, and the theorems at inputs that meet their hypotheses.
mod Ciphers
mod Packs
mod Transport
mod Frames
mod Acceleration
mod Leases
mod Segments
mod Channels
