-- ===== src/Citizens/Reputation/Threshold.antt =====
-- The threshold of reputation as the group grows (obywatele/views.py, `required_reputation`).
use wikikracja.Common.{ℕ, suc, arith}
use wikikracja.Common.Int.{pos, ◌≤ℤ◌, ◌+ℤ◌}
use wikikracja.Citizens.Reputation.{required_reputation}

-- A group of `2 * acceptance` or more asks for the full threshold, a smaller one for as much less as
-- it is smaller; the threshold never falls when the group grows, and grows by one person's worth at
-- most.
pub required_reputation_steps :
    (pop acceptance : ℕ)
    → (required_reputation pop acceptance ≤ℤ required_reputation (suc pop) acceptance)
      × (required_reputation (suc pop) acceptance ≤ℤ required_reputation pop acceptance +ℤ pos 1)
      × (required_reputation pop acceptance ≤ℤ pos acceptance)
unfolding required_reputation ◌+ℤ◌
required_reputation_steps pop acceptance = ground arith
