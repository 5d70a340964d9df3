-- ===== src/Storage.antt =====
-- src/storage and include/afina/Storage.h.
pub mod Spec
pub mod Lru
pub mod Api
pub mod Simulation
