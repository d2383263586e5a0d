-- ===== src/Chat.antt =====
-- The notifications of the chat (chat/notification_queue.py).
pub mod Queue
pub mod Spacing
pub mod Latest
pub mod Messages
