-- ===== src/Tasks.antt =====
-- The activities of the group (tasks/models.py, tasks/views.py).
pub mod Model
pub mod Handlers
pub mod Phases
pub mod Votes
pub mod Subtasks
