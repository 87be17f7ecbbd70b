-- ===== src/EdgeProxy.antt =====
-- cmd/kiac-edge-proxy/main.go: the node-local edge proxy.
pub mod Cluster
pub mod Endpoints
pub mod Iptables
pub mod Node
pub mod Hooks
pub mod Routes
pub mod Sync
pub mod Tunnel
pub mod Examples
pub mod Streams
