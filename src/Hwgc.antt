-- ===== src/Hwgc.antt =====
-- The HWGC driver, loongnix/qemu_dev/hwgc_driver/hwgc_driver_platform.c.
pub mod Regs
pub mod Types
pub mod Events
pub mod Params
pub mod Irq
pub mod Ioctl
pub mod Channel
pub mod Remove
pub mod Invariant
pub mod Words
pub mod Files
pub mod Works
pub mod Session
pub mod Waiters
pub mod Service
