-- ===== src/Engine.antt =====
-- src/engine/engine.js: the engine's handling of cached values.
pub mod Cached
pub mod Strings
pub mod Lists
pub mod Increments
