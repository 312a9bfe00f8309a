-- ===== src/Transport.antt =====
-- internal/transport: delivery of batches over the network.
pub mod Config
pub mod Sender
pub mod Backoff
pub mod Delivery
pub mod Http
pub mod Lifecycle
pub mod Worker
mod Examples
