-- ===== src/Runtime/Krunkit/Examples.antt =====
-- The theorems about krunkit machines, at concrete hosts and machines.
mod Networks
mod Machines
mod Lifecycle
