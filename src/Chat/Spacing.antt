-- ===== src/Chat/Spacing.antt =====
-- The times of the notifications of one room, and the jobs that wait (chat/notification_queue.py).
use wikikracja.Common.{
  ℕ, ◌+◌, ◌≤◌, ◌≡◌, refl, sym, arith, Bool, true, false, ◌&&◌, Option, none, some, List, [], ◌∷◌,
  ltb, if◌then◌else◌, exists_by, is_some, ◌⊎◌, inl, inr, Bool-cases,
}
use wikikracja.Chat.Queue.{
  Timed, Job, Pair, read, cooldown_seconds, is_cooling, dispatch, defer, dispatch_or_defer,
  deliver_pending, wait_or_deliver, deliver_if_any, deliver_due, cool_down, was_delivered, is_due,
}

-- Times, the latest first, are an hour apart.
abbrev pub Spaced : List (Job × ℕ) → Type 0
Spaced [] = Unit
Spaced ((_, t) ∷ []) = Unit
Spaced ((_, t) ∷ (j, s) ∷ rest) = (s + cooldown_seconds ≤ t) × Spaced ((j, s) ∷ rest)

-- The cooldown is that of the last notification, or the hour is over.
abbrev pub Guarded : ℕ → Option (Timed ℕ) → List (Job × ℕ) → Type 0
Guarded now cooldown [] = Unit
Guarded now cooldown ((_, t) ∷ rest) = (cooldown ≡ cool_down t) ⊎ (t + cooldown_seconds ≤ now)

-- A job that can still be read is among the delayed ones.
abbrev pub Waits : ℕ → Pair → Type 0
Waits now p = is_some (read now p.pending) ≡ true → is_some p.delayed ≡ true

-- The state at a time.
abbrev pub IsValid : ℕ → Pair → Type 0
IsValid now p = Spaced p.sent × Guarded now p.cooldown p.sent × Waits now p

-- A notification may be sent at this time.
abbrev pub IsOver : ℕ → List (Job × ℕ) → Type 0
IsOver now [] = Unit
IsOver now ((_, t) ∷ rest) = t + cooldown_seconds ≤ now

cooling : ℕ → Option (Timed ℕ) → Option ℕ
cooling now c = elim (read now c) [ none ↦ none | some d ↦ if ltb now d then some d else none ]

cooled : (now t : ℕ) → cooling now (cool_down t) ≡ none → t + cooldown_seconds ≤ now
unfolding cooling
cooled now t h = ground (arith, h)

over :
    (now : ℕ) (c : Option (Timed ℕ)) (p : Pair) (js : List (Job × ℕ))
    → p.cooldown ≡ c
    → is_cooling now p ≡ none
    → Guarded now c js
    → IsOver now js
unfolding cooling
over now c p [] e h g = tt
over now c p ((j, t) ∷ rest) e h (inl g) = cooled now t (rw (sym g) (rw (sym e) h))
over now c p ((j, t) ∷ rest) e h (inr g) = g

Spaced-cons :
    (now : ℕ) (j : Job) (js : List (Job × ℕ)) → IsOver now js → Spaced js → Spaced ((j, now) ∷ js)
Spaced-cons now j [] o s = tt
Spaced-cons now j ((i, t) ∷ rest) o s = (o, s)

Guarded-over :
    (now : ℕ) (c : Option (Timed ℕ)) (js : List (Job × ℕ)) → IsOver now js → Guarded now c js
Guarded-over now c [] o = tt
Guarded-over now c ((i, t) ∷ rest) o = inr o

-- Time passes.
Guarded-later :
    (now later : ℕ) (c : Option (Timed ℕ)) (js : List (Job × ℕ))
    → now ≤ later
    → Guarded now c js
    → Guarded later c js
Guarded-later now later c [] b g = tt
Guarded-later now later c ((i, t) ∷ rest) b (inl g) = inl g
Guarded-later now later c ((i, t) ∷ rest) b (inr g) = inr (omega (arith, b, g))

later-IsValid : (now later : ℕ) (p : Pair) → now ≤ later → IsValid now p → IsValid later p
later-IsValid now later p b (s, g, w) =
    (s, Guarded-later now later p.cooldown p.sent b g, ground (arith, b, w))

dispatch-IsValid :
    (deliver : Job → Bool) (job : Job) (now : ℕ) (p : Pair)
    → is_cooling now p ≡ none
    → IsValid now p
    → IsValid now (dispatch deliver job now p).1
unfolding dispatch
dispatch-IsValid deliver job now p h (s, g, w) = elim (Bool-cases (deliver job)) [
  | inl e ↦ rw e (
    Spaced-cons now job p.sent (over now p.cooldown p p.sent refl h g) s,
    inl refl,
    λ k. ground (arith, k),
  )
  | inr e ↦ rw e (s, g, λ k. ground (arith, k))
]

defer-IsValid :
    (deliver : Job → Bool) (job : Job) (now : ℕ) (p : Pair) (o : Option ℕ)
    → is_cooling now p ≡ o
    → IsValid now p
    → IsValid now (defer o deliver job now p).1
unfolding defer
defer-IsValid deliver job now p none h v = dispatch-IsValid deliver job now p h v
defer-IsValid deliver job now p (some d) h (s, g, w) = (s, g, λ _. refl)

dispatch_or_defer-IsValid :
    (is_free : Bool) (deliver : Job → Bool) (job : Job) (now : ℕ) (p : Pair)
    → IsValid now p
    → IsValid now (dispatch_or_defer is_free deliver job now p).1
unfolding dispatch_or_defer
dispatch_or_defer-IsValid true deliver job now p v =
    defer-IsValid deliver job now p (is_cooling now p) refl v
dispatch_or_defer-IsValid false deliver job now p v = v

deliver_pending-IsValid :
    (deliver : Job → Bool) (now : ℕ) (job : Job) (p : Pair)
    → is_cooling now p ≡ none
    → IsValid now p
    → IsValid now (deliver_pending deliver now job p).1
unfolding deliver_pending
deliver_pending-IsValid deliver now job p h (s, g, w) =
    elim (Bool-cases (exists_by (was_delivered now job) p.delivered_keys)) [
      | inl e ↦ rw e (
        s,
        Guarded-over now none p.sent (over now p.cooldown p p.sent refl h g),
        λ k. ground (arith, k),
      )
      | inr e ↦ rw e (elim (Bool-cases (deliver job)) [
        | inl d ↦ rw d (
          Spaced-cons now job p.sent (over now p.cooldown p p.sent refl h g) s,
          inl refl,
          λ k. ground (arith, k),
        )
        | inr d ↦ rw d (s, g, λ _. refl)
      ])
    ]

wait_or_deliver-IsValid :
    (deliver : Job → Bool) (now : ℕ) (job : Job) (p : Pair) (o : Option ℕ)
    → is_cooling now p ≡ o
    → IsValid now p
    → IsValid now (wait_or_deliver o deliver now job p).1
unfolding wait_or_deliver
wait_or_deliver-IsValid deliver now job p none h v = deliver_pending-IsValid deliver now job p h v
wait_or_deliver-IsValid deliver now job p (some d) h (s, g, w) = (s, g, λ _. refl)

deliver_if_any-IsValid :
    (deliver : Job → Bool) (now : ℕ) (p : Pair) (o : Option Job)
    → read now p.pending ≡ o
    → IsValid now p
    → IsValid now (deliver_if_any o deliver now p).1
unfolding deliver_if_any
deliver_if_any-IsValid deliver now p none h (s, g, w) = (s, g, rw h (λ k. ground (arith, k)))
deliver_if_any-IsValid deliver now p (some job) h v =
    wait_or_deliver-IsValid deliver now job p (is_cooling now p) refl v

deliver_due-IsValid :
    (is_free : Bool) (deliver : Job → Bool) (now : ℕ) (p : Pair)
    → IsValid now p
    → IsValid now (deliver_due is_free deliver now p).1
unfolding deliver_due
deliver_due-IsValid is_free deliver now p v = elim (Bool-cases (is_due now p && is_free)) [
  | inl e ↦ rw e (deliver_if_any-IsValid deliver now p (read now p.pending) refl v)
  | inr e ↦ rw e v
]

-- What happens to a pair of user and room while the user does not open the room.
pub data Reachable : ℕ → Pair → Type 0 where
  fresh :
      (now : ℕ)
      → Reachable now (record {
        cooldown = none;
        pending = none;
        delayed = none;
        delivered_keys = [];
        sent = [];
      })
  waited : (now later : ℕ) (p : Pair) → now ≤ later → Reachable now p → Reachable later p
  dispatched :
      (is_free : Bool) (deliver : Job → Bool) (job : Job) (now : ℕ) (p : Pair)
      → Reachable now p
      → Reachable now (dispatch_or_defer is_free deliver job now p).1
  came_due :
      (is_free : Bool) (deliver : Job → Bool) (now : ℕ) (p : Pair)
      → Reachable now p
      → Reachable now (deliver_due is_free deliver now p).1

run-IsValid : (now : ℕ) (p : Pair) → Reachable now p → IsValid now p
run-IsValid now _ (fresh _) = (tt, tt, λ k. ground (arith, k))
run-IsValid now p (waited before _ _ b r) = later-IsValid before now p b (run-IsValid before p r)
run-IsValid now _ (dispatched is_free deliver job _ p r) =
    dispatch_or_defer-IsValid is_free deliver job now p (run-IsValid now p r)
run-IsValid now _ (came_due is_free deliver _ p r) =
    deliver_due-IsValid is_free deliver now p (run-IsValid now p r)

-- However many messages come, whatever sending answers and whoever holds the lock: while the user does
-- not open the room, any two notifications of it are an hour apart.
pub reachable-Spaced : (now : ℕ) (p : Pair) → Reachable now p → Spaced p.sent
reachable-Spaced now p r = (run-IsValid now p r).0

-- In all those runs, a job that waits and can still be read is among the delayed ones, so that a later
-- round finds it.
pub reachable_waits :
    (now : ℕ) (p : Pair)
    → Reachable now p
    → is_some (read now p.pending) ≡ true
    → is_some p.delayed ≡ true
reachable_waits now p r = (run-IsValid now p r).2
