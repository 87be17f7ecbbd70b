-- ===== src/Runtime.antt =====
-- pkg/runtime: the virtual machines that nodes run in.
pub mod Mount
pub mod Routed
pub mod Publish
pub mod Krunkit
mod Examples
