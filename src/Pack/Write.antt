-- ===== src/Pack/Write.antt =====
-- What the writer's calls do to a pack, in terms of the elements that it stands for.
pub mod Cursor
pub mod Adds
pub mod Calls
pub mod Overflow
