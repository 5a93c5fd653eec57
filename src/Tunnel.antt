-- ===== src/Tunnel.antt =====
-- internal/tunnel: frames on the wire, and the replay buffer.
pub mod Frame
pub mod Wire
pub mod Buffer
pub mod Conn
