-- ===== src/GpuDriver.antt =====
-- internal/gpudriver: the driver that offers a node's GPU to Kubernetes.
pub mod Health
pub mod Plugin
mod Examples
