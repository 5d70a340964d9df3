-- ===== src/Coroutine.antt =====
-- include/afina/coroutine/Engine.h and src/coroutine/Engine.cpp.
pub mod Memory
pub mod Addresses
pub mod Engine
