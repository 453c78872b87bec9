-- ===== src/Pack.antt =====
-- The PACK serialization of softether-core/src/proto/softether_pack.c: the growable writer, the
-- bounds-safe readers, and the format that both sides mean.
pub mod Element
pub mod Writer
pub mod Reserve
pub mod Write
pub mod Reader
pub mod Read
