-- ===== src/Voting.antt =====
-- Voting (glosowania).
pub mod Model
pub mod World
pub mod Buffer
pub mod Tables
pub mod Signing
pub mod Cast
pub mod Nightly
pub mod Effects
pub mod Editing
pub mod Runs
