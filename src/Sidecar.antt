-- ===== src/Sidecar.antt =====
-- internal/sidecar: the half of the tunnel that runs beside the agent.
pub mod Session
pub mod Client
pub mod Suspender
pub mod Ingress
pub mod Proxy
