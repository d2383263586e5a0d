-- ===== src/Notifications.antt =====
-- core/notifications.py: who is told of what, by Firebase and by websocket.
pub mod Policy
pub mod Model
pub mod Broadcast
pub mod Direct
pub mod Receivers
pub mod Unsubscribe
