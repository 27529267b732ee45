-- ===== src/Hwgc/Invariant.antt =====
-- What holds of `struct hwgc` between two critical sections, whatever the interleaving.
pub mod Defs
pub mod Slot
pub mod Held
pub mod Reach
pub mod Blocks
pub mod Wake
pub mod Steps
