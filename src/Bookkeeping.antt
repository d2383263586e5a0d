-- ===== src/Bookkeeping.antt =====
-- bookkeeping/services.py and bookkeeping/models.py: transactions, balances and the yearly report.
pub mod Model
pub mod Balances
pub mod Sums
pub mod Breakdown
