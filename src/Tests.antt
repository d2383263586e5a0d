-- ===== src/Tests.antt =====
-- Runs of the models on concrete data: the data, and the theorems applied to it.
pub mod Data
mod Votes
mod Ledger
mod Polls
mod Rooms
mod Dates
mod Notices
mod Offers
mod Proposals
mod Citizens
mod Activities
mod Shared
mod Runs
