-- ===== src/Core/Retry.antt =====
-- Retries of an operation that a lock of SQLite refuses (core/sqlite.py, `run_with_lock_retry`). The
-- operation is a function on the state it works on. Logs and the waiting are left out; of the delays
-- only their number counts.
use wikikracja.Common.{
  ℕ, zero, suc, ◌-◌, ◌≤◌, ◌≡◌, refl, ◌∙◌, arith, Bool, true, false, Result, ok, err, Error, locked,
  value_error, ltb, if◌then◌else◌,
}

abbrev pub is_locked : Error → Bool
is_locked locked = true
is_locked _ = false

some_attempt : (n : ℕ) → ltb (suc n) 1 ≡ false
some_attempt n = ground arith

pred-suc : (n : ℕ) → suc n - 1 ≡ n
pred-suc n = omega arith

enough : (n delays : ℕ) → n ≤ delays → ltb delays n ≡ false
enough n delays b = ground arith

-- The outcome of an operation that the lock does not refuse.
abbrev pub IsFinal : {A : Type 0} → Result A → Type 0
IsFinal (ok a) = Unit
IsFinal (err e) = is_locked e ≡ false

module _ {W A : Type 0} where
  -- The outcome of an attempt, after which `again` is the next one.
  unfoldable pub after_attempt : Result A × W → (W → Result A × W) → Result A × W
  after_attempt (ok a, w) again = (ok a, w)
  after_attempt (err e, w) again = if is_locked e then again w else (err e, w)

  -- The attempts: the last one raises what it raises.
  unfoldable pub attempt : ℕ → (W → Result A × W) → W → Result A × W
  attempt zero function w = function w
  attempt (suc n) function w = after_attempt (function w) (attempt n function)

  -- `run_with_lock_retry`
  unfoldable pub run_with_lock_retry : ℕ → ℕ → (W → Result A × W) → W → Result A × W
  run_with_lock_retry max_attempts delays function w =
      if ltb max_attempts 1
      then (err value_error, w)
      else if ltb delays (max_attempts - 1)
      then (err value_error, w)
      else attempt (max_attempts - 1) function w

  -- The operation is refused by the lock this many times in a row, which takes the state from one to
  -- the other.
  pub data LockedFor (function : W → Result A × W) : ℕ → W → W → Type 0 where
    no_time : (w : W) → LockedFor function 0 w w
    once_more :
        (n : ℕ) (w w' w'' : W)
        → function w ≡ (err locked, w')
        → LockedFor function n w' w''
        → LockedFor function (suc n) w w''

  after_attempt_final :
      (r : Result A) (w : W) (again : W → Result A × W)
      → IsFinal r
      → after_attempt (r, w) again ≡ (r, w)
  unfolding after_attempt
  after_attempt_final (ok a) w again h = refl
  after_attempt_final (err e) w again h = rw h refl

  attempt_final :
      (function : W → Result A × W) (n : ℕ) (w w' : W) (r : Result A)
      → function w ≡ (r, w')
      → IsFinal r
      → attempt n function w ≡ (r, w')
  unfolding attempt
  attempt_final function zero w w' r e h = e
  attempt_final function (suc n) w w' r e h = rw e (after_attempt_final r w' (attempt n function) h)

  attempt_locked :
      (function : W → Result A × W) (n k : ℕ) (w w' w'' : W) (r : Result A)
      → LockedFor function k w w'
      → function w' ≡ (r, w'')
      → IsFinal r
      → k ≤ n
      → attempt n function w ≡ (r, w'')
  unfolding attempt after_attempt
  attempt_locked function n _ w _ w'' r (no_time _) e h b = attempt_final function n w w'' r e h
  attempt_locked function zero _ w w' w'' r (once_more k _ u _ l ls) e h b =
      absurd (omega (arith, b))
  attempt_locked function (suc n) _ w w' w'' r (once_more k _ u _ l ls) e h b =
      rw l (attempt_locked function n k u w' w'' r ls e h (omega (arith, b)))

  attempt_exhausted :
      (function : W → Result A × W) (n : ℕ) (w w' : W)
      → LockedFor function (suc n) w w'
      → attempt n function w ≡ (err locked, w')
  unfolding attempt after_attempt
  attempt_exhausted function zero w w' (once_more _ _ _ _ l (no_time _)) = l
  attempt_exhausted function (suc n) w w' (once_more _ _ u _ l ls) =
      rw l (attempt_exhausted function n u w' ls)

  run_attempts :
      (function : W → Result A × W) (n delays : ℕ) (w : W)
      → n ≤ delays
      → run_with_lock_retry (suc n) delays function w ≡ attempt n function w
  unfolding run_with_lock_retry
  run_attempts function n delays w b =
      rw (some_attempt n) (rw (pred-suc n) (rw (enough n delays b) refl))

  -- With a delay for every retry: an operation that the lock refuses fewer times than there are
  -- attempts, and that then ends in a result or in another error, ends the run with that outcome and
  -- that state.
  pub run_with_lock_retry_returns :
      (function : W → Result A × W) (n delays k : ℕ) (w w' w'' : W) (r : Result A)
      → n ≤ delays
      → k ≤ n
      → LockedFor function k w w'
      → function w' ≡ (r, w'')
      → IsFinal r
      → run_with_lock_retry (suc n) delays function w ≡ (r, w'')
  run_with_lock_retry_returns function n delays k w w' w'' r b c l e h =
      run_attempts function n delays w b ∙ attempt_locked function n k w w' w'' r l e h c

  -- With a delay for every retry, an operation that the lock refuses at every attempt is not attempted
  -- more often, and raises the error of the lock.
  pub run_with_lock_retry_gives_up :
      (function : W → Result A × W) (n delays : ℕ) (w w' : W)
      → n ≤ delays
      → LockedFor function (suc n) w w'
      → run_with_lock_retry (suc n) delays function w ≡ (err locked, w')
  run_with_lock_retry_gives_up function n delays w w' b l =
      run_attempts function n delays w b ∙ attempt_exhausted function n w w' l
