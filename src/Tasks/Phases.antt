-- ===== src/Tasks/Phases.antt =====
-- The phase and the status of an activity against its votes and its team (tasks/views.py,
-- tasks/models.py `sync_realization_phase`).
use wikikracja.Common.{
  ℕ, ◌≡◌, refl, sym, Bool, true, false, Option, none, some, List, Bool-cases, inl, inr, arith,
}
use wikikracja.Common.Int.{ltb_ℤ, pos, ◌+ℤ◌}
use wikikracja.Tasks.Model.{
  Status, Phase, Value, Judgement, Task, is_active, vote_score, target_phase, is_ready,
  get_team_size, sync_realization_phase, is_user_helper, is_user_approved,
}
use wikikracja.Tasks.Handlers.{
  Answer, create_task, take_task, approve_helper, remove_helper, toggle_helper, require_coordinator,
  approve_view, remove_view, toggle_view, resign_task, edit_task, close_task, after_vote, vote_task,
  reopen_task, evaluate_task, toggle_vote, is_rejected, successor_vote, voter,
}

-- The votes against do not outnumber the votes for.
abbrev pub IsBacked : Task → Type 0
IsBacked t = ltb_ℤ (vote_score t.votes) (pos 0) ≡ false

-- What holds of an active task: its phase is what its coordinator, votes and team ask for, and it is
-- not voted down.
abbrev pub IsValid : Task → Type 0
IsValid t = is_active t ≡ true → (t.phase ≡ target_phase t) × IsBacked t

target_phase-phase : (p : Phase) (t : Task) → target_phase (record t { phase = p }) ≡ target_phase t
unfolding target_phase is_ready get_team_size
target_phase-phase p t = refl

sync-IsValid : (t : Task) → (is_active t ≡ true → IsBacked t) → IsValid (sync_realization_phase t)
unfolding sync_realization_phase
sync-IsValid t h = elim (Bool-cases (is_active t)) [
  | inl e ↦ rw e (λ _. (sym (target_phase-phase (target_phase t) t), h e))
  | inr e ↦ rw e (λ a. ground arith)
]

create_task-IsValid : (user people vote_id now : ℕ) → IsValid (create_task user people vote_id now)
unfolding create_task target_phase is_ready vote_score get_team_size ◌+ℤ◌
create_task-IsValid user people vote_id now = ground arith

take_task-IsValid : (user : ℕ) (t : Task) → IsValid t → IsValid (take_task user t).1
unfolding take_task
take_task-IsValid user t h = ground (arith, h, sync-IsValid (record t { assigned_to = some user }))

with_helpers-IsValid :
    (hs : List ℕ) (t : Task)
    → IsValid t
    → IsValid (sync_realization_phase (record t { approved_helpers = hs }))
with_helpers-IsValid hs t h = sync-IsValid (record t { approved_helpers = hs }) (λ a. (h a).1)

approve_view-IsValid : (k : ℕ) (t : Task) → IsValid t → IsValid (approve_view k t).1
unfolding approve_view
approve_view-IsValid k t h = elim (Bool-cases (is_user_helper k t)) [
  | inl e ↦ rw e (with_helpers-IsValid _ t h)
  | inr e ↦ rw e h
]

remove_view-IsValid : (k : ℕ) (t : Task) → IsValid t → IsValid (remove_view k t).1
unfolding remove_view
remove_view-IsValid k t h = with_helpers-IsValid _ t h

toggle_view-IsValid : (k : ℕ) (t : Task) → IsValid t → IsValid (toggle_view k t).1
unfolding toggle_view
toggle_view-IsValid k t h = elim (Bool-cases (is_user_approved k t)) [
  | inl e ↦ rw e (remove_view-IsValid k t h)
  | inr e ↦ rw e (approve_view-IsValid k t h)
]

require_coordinator-IsValid :
    (user k : ℕ) (found : Bool) (view : Task → Answer × Task) (t : Task)
    → IsValid t
    → IsValid (view t).1
    → IsValid (require_coordinator user k found view t).1
unfolding require_coordinator
require_coordinator-IsValid user k found view t h h' = ground arith

resign_task-IsValid : (user : ℕ) (t : Task) → IsValid t → IsValid (resign_task user t).1
unfolding resign_task
resign_task-IsValid user t h =
    ground (arith, h, sync-IsValid (record t { assigned_to = voter (successor_vote user t.votes) }))

edit_task-IsValid : (user people : ℕ) (t : Task) → IsValid t → IsValid (edit_task user people t).1
unfolding edit_task
edit_task-IsValid user people t h =
    ground (arith, h, sync-IsValid t, sync-IsValid (record t { required_people = some people }))

close_task-IsValid :
    (user : ℕ) (s : Status) (t : Task) → IsValid t → IsValid (close_task user s t).1
unfolding close_task
close_task-IsValid user s t h = ground (arith, h)

after_vote-IsValid : (t : Task) → IsValid (after_vote t)
unfolding after_vote
after_vote-IsValid t = elim (Bool-cases (is_rejected t)) [
  | inl e ↦ rw e (λ a. ground arith)
  | inr e ↦ rw e (sync-IsValid t (λ _. e))
]

vote_task-IsValid :
    (user : ℕ) (value : Option Value) (id now : ℕ) (t : Task)
    → IsValid t
    → IsValid (vote_task user value id now t).1
unfolding vote_task
vote_task-IsValid user none id now t h = ground (arith, h)
vote_task-IsValid user (some v) id now t h =
    ground (arith, h, after_vote-IsValid (record t { votes = toggle_vote user v id now t.votes }))

reopen_task-IsValid : (user : ℕ) (t : Task) → IsValid t → IsValid (reopen_task user t).1
unfolding reopen_task target_phase is_ready vote_score
reopen_task-IsValid user t h = ground (arith, h)

evaluate_task-IsValid :
    (user : ℕ) (j : Option Judgement) (t : Task) → IsValid t → IsValid (evaluate_task user j t).1
unfolding evaluate_task target_phase is_ready get_team_size
evaluate_task-IsValid user none t h = h
evaluate_task-IsValid user (some j) t h = h

-- The requests that an activity goes through, from its creation on.
pub data Reachable : Task → Type 0 where
  created : (user people vote_id now : ℕ) → Reachable (create_task user people vote_id now)
  taken : (user : ℕ) (t : Task) → Reachable t → Reachable (take_task user t).1
  approved :
      (user k : ℕ) (found : Bool) (t : Task)
      → Reachable t
      → Reachable (approve_helper user k found t).1
  removed :
      (user k : ℕ) (found : Bool) (t : Task)
      → Reachable t
      → Reachable (remove_helper user k found t).1
  toggled :
      (user k : ℕ) (found : Bool) (t : Task)
      → Reachable t
      → Reachable (toggle_helper user k found t).1
  resigned : (user : ℕ) (t : Task) → Reachable t → Reachable (resign_task user t).1
  edited : (user people : ℕ) (t : Task) → Reachable t → Reachable (edit_task user people t).1
  closed : (user : ℕ) (s : Status) (t : Task) → Reachable t → Reachable (close_task user s t).1
  voted_on :
      (user : ℕ) (value : Option Value) (id now : ℕ) (t : Task)
      → Reachable t
      → Reachable (vote_task user value id now t).1
  reopened : (user : ℕ) (t : Task) → Reachable t → Reachable (reopen_task user t).1
  evaluated :
      (user : ℕ) (j : Option Judgement) (t : Task)
      → Reachable t
      → Reachable (evaluate_task user j t).1

reachable-IsValid : (t : Task) → Reachable t → IsValid t
unfolding approve_helper remove_helper toggle_helper
reachable-IsValid _ (created user people vote_id now) = create_task-IsValid user people vote_id now
reachable-IsValid _ (taken user t r) = take_task-IsValid user t (reachable-IsValid t r)
reachable-IsValid _ (approved user k found t r) =
    require_coordinator-IsValid user k found (approve_view k) t (reachable-IsValid t r)
      (approve_view-IsValid k t (reachable-IsValid t r))
reachable-IsValid _ (removed user k found t r) =
    require_coordinator-IsValid user k found (remove_view k) t (reachable-IsValid t r)
      (remove_view-IsValid k t (reachable-IsValid t r))
reachable-IsValid _ (toggled user k found t r) =
    require_coordinator-IsValid user k found (toggle_view k) t (reachable-IsValid t r)
      (toggle_view-IsValid k t (reachable-IsValid t r))
reachable-IsValid _ (resigned user t r) = resign_task-IsValid user t (reachable-IsValid t r)
reachable-IsValid _ (edited user people t r) =
    edit_task-IsValid user people t (reachable-IsValid t r)
reachable-IsValid _ (closed user s t r) = close_task-IsValid user s t (reachable-IsValid t r)
reachable-IsValid _ (voted_on user value id now t r) =
    vote_task-IsValid user value id now t (reachable-IsValid t r)
reachable-IsValid _ (reopened user t r) = reopen_task-IsValid user t (reachable-IsValid t r)
reachable-IsValid _ (evaluated user j t r) = evaluate_task-IsValid user j t (reachable-IsValid t r)

-- Whatever requests an activity goes through from its creation on, while it is active its phase is
-- "realization" exactly when it has a coordinator, a score of 2 or more and the people it asks for,
-- and the votes against it do not outnumber the votes for it.
pub reachable_aligned :
    (t : Task) → Reachable t → is_active t ≡ true → (t.phase ≡ target_phase t) × IsBacked t
reachable_aligned t r = reachable-IsValid t r
