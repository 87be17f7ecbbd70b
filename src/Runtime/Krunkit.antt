-- ===== src/Runtime/Krunkit.antt =====
-- Persistent Linux machines under krunkit (pkg/runtime/krunkit.go, krunkit_state.go and
-- krunkit_address.go).
pub mod Network
pub mod Sizes
pub mod Nodes
pub mod GuestMounts
pub mod Process
pub mod World
pub mod Stop
pub mod Start
pub mod Remove
pub mod Plan
pub mod Create
pub mod Mac
pub mod Address
pub mod Listing
pub mod Linked
pub mod Separated
pub mod Reachable
mod Examples
