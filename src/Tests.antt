-- ===== src/Tests.antt =====
-- Small runs of the kernel and of the store, and the properties at them.
pub mod Samples
mod Requests
mod Stores
mod Plans
mod Service
