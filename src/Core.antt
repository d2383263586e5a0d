-- ===== src/Core.antt =====
-- What the applications share (core/sqlite.py, core/presence.py).
pub mod Retry
pub mod Presence
