-- ===== src/Events.antt =====
-- events/models.py: when an event takes place next, and on which dates of a range.
pub mod Model
pub mod Next
pub mod Occurrences
pub mod Listed
