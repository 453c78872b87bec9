-- ===== src/Crypto.antt =====
-- The code of softether-core/src/crypto that is the repository's own and calls no library.
pub mod Rc4
