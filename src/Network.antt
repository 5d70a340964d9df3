-- ===== src/Network.antt =====
-- src/network: the servers.
pub mod Connection
pub mod Blocking
pub mod Listen
pub mod Events
pub mod Multi
pub mod Worker
pub mod Workers
pub mod Acceptors
