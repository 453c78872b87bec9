-- ===== src/Pack/Read.antt =====
-- Reading back what the writer writes.
pub mod Elements
pub mod Getters
pub mod Built
pub mod Bounds
