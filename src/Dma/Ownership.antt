-- ===== src/Dma/Ownership.antt =====
-- The references that a driver has taken, to pages, tasks and mms, against those that it has put back
-- and those that it still holds in its device structure: the functions of Dma.antt.
mod Fill
mod Context
pub mod Defs
pub use Fill.*
pub use Context.*
