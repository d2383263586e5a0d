-- ===== src/Chat/Queue.antt =====
-- Push notifications of chat rooms (chat/notification_queue.py). The state is what Redis keeps for one
-- pair of user and room; a value with a time to live is read as absent from its end on. Times are
-- numbers of seconds. The stream of jobs and its consumers are left out, and so are members of the
-- sorted set that name no pair and the limit of members for one round.
use wikikracja.Common.{
  ℕ, ◌+◌, ◌*◌, Bool, true, false, ◌&&◌, Option, none, some, List, ◌∷◌, ltb, leb, if◌then◌else◌,
  exists_by, ◌==◌,
}

-- A value with the end of its life.
pub record Timed {ℓ} (V : Type ℓ) : Type ℓ where
  pub value : V
  pub until : ℕ

abbrev pub read {ℓ} : {V : Type ℓ} → ℕ → Option (Timed V) → Option V
read now none = none
read now (some e) = if ltb now e.until then some e.value else none

pub record Job : Type 0 where
  pub job_id : ℕ

-- The pair's keys, its score in the sorted set of delayed members, the keys of delivered jobs, and
-- what was sent, with the time.
pub record Pair : Type 0 where
  pub cooldown : Option (Timed ℕ)
  pub pending : Option (Timed Job)
  pub delayed : Option ℕ
  pub delivered_keys : List (Timed ℕ)
  pub sent : List (Job × ℕ)

abbrev pub cooldown_seconds : ℕ
cooldown_seconds = 3600

-- `deadline and deadline > now`
abbrev pub is_cooling : ℕ → Pair → Option ℕ
is_cooling now p = elim (read now p.cooldown) [
  | none ↦ none
  | some deadline ↦ if ltb now deadline then some deadline else none
]

pub data Outcome : Type 0 where
  busy deferred delivered failed : Outcome

abbrev pub cool_down : ℕ → Option (Timed ℕ)
cool_down now = some (record { value = now + cooldown_seconds; until = now + cooldown_seconds + 5 })

-- Past the cooldown: what was waiting is dropped, also when sending raises.
unfoldable pub dispatch : (Job → Bool) → Job → ℕ → Pair → Outcome × Pair
dispatch deliver job now p =
    if deliver job
    then (
      Outcome.delivered,
      record p {
        pending = none;
        delayed = none;
        sent = (job, now) ∷ p.sent;
        cooldown = cool_down now;
      },
    )
    else (Outcome.failed, record p { pending = none; delayed = none })

unfoldable pub defer : Option ℕ → (Job → Bool) → Job → ℕ → Pair → Outcome × Pair
unfolding dispatch
defer none deliver job now p = dispatch deliver job now p
defer (some deadline) deliver job now p = (
  Outcome.deferred,
  record p {
    pending = some (record { value = job; until = now + cooldown_seconds * 2 });
    delayed = some deadline;
  },
)

-- `dispatch_or_defer_chat_notification`; `is_free` tells whether the pair's lock is taken at once,
-- and `deliver` whether sending succeeds.
unfoldable pub dispatch_or_defer : Bool → (Job → Bool) → Job → ℕ → Pair → Outcome × Pair
unfolding defer
dispatch_or_defer is_free deliver job now p =
    if is_free then defer (is_cooling now p) deliver job now p else (Outcome.busy, p)

abbrev pub was_delivered : ℕ → Job → Timed ℕ → Bool
was_delivered now job e = e.value == job.job_id && ltb now e.until

-- A job that waits is sent once: its key tells whether it was.
unfoldable pub deliver_pending : (Job → Bool) → ℕ → Job → Pair → Bool × Pair
deliver_pending deliver now job p =
    if exists_by (was_delivered now job) p.delivered_keys
    then (false, record p { pending = none; cooldown = none; delayed = none })
    else if deliver job
    then (
      true,
      record p {
        delivered_keys =
            record { value = job.job_id; until = now + 7 * 24 * 60 * 60 } ∷ p.delivered_keys;
        cooldown = cool_down now;
        pending = none;
        delayed = none;
        sent = (job, now) ∷ p.sent;
      },
    )
    else (false, record p { delayed = some (now + 15) })

unfoldable pub wait_or_deliver : Option ℕ → (Job → Bool) → ℕ → Job → Pair → Bool × Pair
unfolding deliver_pending
wait_or_deliver none deliver now job p = deliver_pending deliver now job p
wait_or_deliver (some deadline) deliver now job p = (false, record p { delayed = some deadline })

unfoldable pub deliver_if_any : Option Job → (Job → Bool) → ℕ → Pair → Bool × Pair
unfolding wait_or_deliver
deliver_if_any none deliver now p = (false, record p { delayed = none })
deliver_if_any (some job) deliver now p = wait_or_deliver (is_cooling now p) deliver now job p

-- Whether `zrangebyscore` up to now finds the pair.
abbrev pub is_due : ℕ → Pair → Bool
is_due now p = elim p.delayed [ none ↦ false | some score ↦ leb score now ]

-- One round of `deliver_due_chat_notifications`, and whether it counts.
unfoldable pub deliver_due : Bool → (Job → Bool) → ℕ → Pair → Bool × Pair
unfolding deliver_if_any
deliver_due is_free deliver now p =
    if is_due now p && is_free
    then deliver_if_any (read now p.pending) deliver now p
    else (false, p)

-- `clear_room_notification_state`
unfoldable pub clear_room_notification_state : Bool → Pair → Bool × Pair
clear_room_notification_state is_free p =
    if is_free
    then (true, record p { cooldown = none; pending = none; delayed = none })
    else (false, p)
