-- ===== src/Tests.antt =====
-- The theorems applied to concrete runs of the drivers.
mod Values
mod Hwgc
mod Interleave
mod Words
mod Works
mod Blocks
mod Files
mod Cycle
mod Drivers
mod XorTlb
mod Service
mod Client
mod Edu
mod Shadow
