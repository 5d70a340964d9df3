-- ===== src/Tests.antt =====
-- Runs of the modelled code, and instances of its theorems, at concrete inputs.
pub mod Cache
mod Lists
mod Commands
mod Lines
pub mod Clients
mod Workers
mod Logs
mod Servers
mod Events
mod Coroutines
