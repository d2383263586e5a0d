-- ===== src/Tests/Shared.antt =====
-- Runs of retries and of presence.
use wikikracja.Common.{
  ℕ, zero, suc, ◌≡◌, refl, Bool, true, none, some, [], ◌∷◌, Result, ok, err, locked, arith,
}
use wikikracja.Core.Retry.{
  run_with_lock_retry, LockedFor, run_with_lock_retry_returns, run_with_lock_retry_gives_up,
}
use wikikracja.Core.Presence.{Source, Row}

-- An operation that the lock refuses as often as the state says.
abbrev countdown : ℕ → Result Bool × ℕ
countdown zero = (ok true, zero)
countdown (suc n) = (err locked, n)

run_with_lock_retry_returns_example : run_with_lock_retry 2 1 countdown 1 ≡ (ok true, 0)
run_with_lock_retry_returns_example =
    run_with_lock_retry_returns countdown 1 1 1 1 0 0 (ok true) (omega arith) (omega arith)
      (LockedFor.once_more 0 1 0 0 refl (LockedFor.no_time 0)) refl tt

run_with_lock_retry_gives_up_example : run_with_lock_retry 2 1 countdown 5 ≡ (err locked, 3)
run_with_lock_retry_gives_up_example =
    run_with_lock_retry_gives_up countdown 1 1 5 3 (omega arith)
      (LockedFor.once_more 1 5 4 3 refl (LockedFor.once_more 0 4 3 3 refl (LockedFor.no_time 3)))

abbrev row : Row
row = (
  record { last_presence_at = some 50; last_presence_source = some Source.push },
  some locked ∷ none ∷ [],
)
