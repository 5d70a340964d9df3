-- ===== src/Protocol.antt =====
-- src/protocol.
pub mod Parser
