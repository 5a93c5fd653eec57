-- ===== src/Broker.antt =====
-- internal/broker: the half of the tunnel outside the actor.
pub mod Session
pub mod Table
pub mod Resumer
