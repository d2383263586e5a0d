-- ===== src/Tasks/Handlers.antt =====
-- The requests that change an activity (tasks/views.py). Each takes the task that was found and gives
-- the task afterwards, with what is answered; the answers in HTML and JSON are one here.
use wikikracja.Common.{
  ℕ, Bool, true, false, not, ◌&&◌, ◌||◌, Option, none, some, List, [], ◌∷◌, ◌++◌, ◌==◌,
  if◌then◌else◌, refers, ltb, exists_by, reject_by, update_by,
}
use wikikracja.Common.Int.{ltb_ℤ, pos}
use wikikracja.Tasks.Model.{
  Status, Phase, Value, TaskVote, Judgement, TaskEvaluation, Task, is_active, same_value,
  is_user_helper, is_user_approved, truthy, vote_score, sync_realization_phase,
}

-- What is answered: done, refused, refused to a user who is not the coordinator, an invalid request,
-- or "not found".
pub data Answer : Type 0 where
  done denied not_coordinator invalid missing : Answer

-- The defaults of a new row, and the form's number of people.
unfoldable pub create_task : ℕ → ℕ → ℕ → ℕ → Task
create_task user people vote_id now = record {
  status = Status.active;
  phase = Phase.proposal;
  required_people = some people;
  created_by = some user;
  assigned_to = some user;
  team_mode = true;
  approved_helpers = [];
  votes = record { id = vote_id; user = user; value = Value.up; updated_at = now } ∷ [];
  evaluations = [];
}

-- `take_task`
unfoldable pub take_task : ℕ → Task → Answer × Task
take_task user t =
    if not (is_active t)
    then (denied, t)
    else if truthy t.assigned_to && not (refers t.assigned_to user)
    then (denied, t)
    else (done, sync_realization_phase (record t { assigned_to = some user }))

-- `approved_helpers.add` and `remove`: the relation holds a user once.
abbrev pub add_helper : ℕ → List ℕ → List ℕ
add_helper k hs = if exists_by (λ h. h == k) hs then hs else hs ++ k ∷ []

abbrev pub drop_helper : ℕ → List ℕ → List ℕ
drop_helper k hs = reject_by (λ h. h == k) hs

-- `require_coordinator`, around the views of helpers; `found` tells whether the helper is a user.
unfoldable pub require_coordinator : ℕ → ℕ → Bool → (Task → Answer × Task) → Task → Answer × Task
require_coordinator user helper found view t =
    if not (refers t.assigned_to user)
    then (not_coordinator, t)
    else if refers t.assigned_to helper
    then (invalid, t)
    else if found
    then view t
    else (missing, t)

unfoldable pub approve_view : ℕ → Task → Answer × Task
approve_view helper t =
    if is_user_helper helper t
    then (
      done,
      sync_realization_phase (record t { approved_helpers = add_helper helper t.approved_helpers }),
    )
    else (invalid, t)

unfoldable pub remove_view : ℕ → Task → Answer × Task
remove_view helper t = (
  done,
  sync_realization_phase (record t { approved_helpers = drop_helper helper t.approved_helpers }),
)

unfoldable pub toggle_view : ℕ → Task → Answer × Task
unfolding approve_view remove_view
toggle_view helper t =
    if is_user_approved helper t then remove_view helper t else approve_view helper t

-- `approve_helper`, `remove_helper` and `toggle_helper`
unfoldable pub approve_helper : ℕ → ℕ → Bool → Task → Answer × Task
unfolding require_coordinator approve_view
approve_helper user helper found t = require_coordinator user helper found (approve_view helper) t

unfoldable pub remove_helper : ℕ → ℕ → Bool → Task → Answer × Task
unfolding require_coordinator remove_view
remove_helper user helper found t = require_coordinator user helper found (remove_view helper) t

unfoldable pub toggle_helper : ℕ → ℕ → Bool → Task → Answer × Task
unfolding require_coordinator toggle_view
toggle_helper user helper found t = require_coordinator user helper found (toggle_view helper) t

-- The order of successors: `order_by("updated_at", "id")`.
abbrev pub earlier : TaskVote → TaskVote → Bool
earlier v w = ltb v.updated_at w.updated_at || (v.updated_at == w.updated_at && ltb v.id w.id)

abbrev pub willing : ℕ → TaskVote → Bool
willing user v = same_value v.value Value.up && not (v.user == user)

-- The first of two votes, one of which may be absent.
unfoldable pub first_of : TaskVote → Option TaskVote → TaskVote
first_of v none = v
first_of v (some w) = if earlier w v then w else v

unfoldable pub successor_vote : ℕ → List TaskVote → Option TaskVote
successor_vote user [] = none
successor_vote user (v ∷ vs) =
    if willing user v then some (first_of v (successor_vote user vs)) else successor_vote user vs

abbrev pub voter : Option TaskVote → Option ℕ
voter none = none
voter (some v) = some v.user

-- `resign_task`
unfoldable pub resign_task : ℕ → Task → Answer × Task
unfolding successor_vote
resign_task user t =
    if not (is_active t)
    then (denied, t)
    else if not (refers t.assigned_to user)
    then (not_coordinator, t)
    else (
      done,
      sync_realization_phase (record t { assigned_to = voter (successor_vote user t.votes) }),
    )

-- `TaskEditView`: an activity in realization has only its date and category edited; `people` is the
-- number of the form.
unfoldable pub edit_task : ℕ → ℕ → Task → Answer × Task
edit_task user people t =
    if refers t.assigned_to user && is_active t
    then (
      done,
      sync_realization_phase (elim t.phase [
        | Phase.realization ↦ t
        | Phase.proposal ↦ record t { required_people = some people }
      ]),
    )
    else (denied, t)

-- `TaskCloseView`; the form lets two of the statuses through.
unfoldable pub close_task : ℕ → Status → Task → Answer × Task
close_task user status t =
    if refers t.assigned_to user && is_active t
    then elim status [
      | Status.completed ↦ (done, record t { status = Status.completed })
      | Status.cancelled ↦ (done, record t { status = Status.cancelled })
      | _ ↦ (invalid, t)
    ]
    else (denied, t)

abbrev pub by_user : ℕ → TaskVote → Bool
by_user user v = v.user == user

abbrev pub voted : ℕ → Value → TaskVote → Bool
voted user value v = v.user == user && same_value v.value value

-- The rows of votes after a user's vote: the same vote again takes it back.
unfoldable pub toggle_vote : ℕ → Value → ℕ → ℕ → List TaskVote → List TaskVote
toggle_vote user value vote_id now vs =
    if exists_by (voted user value) vs
    then reject_by (by_user user) vs
    else if exists_by (by_user user) vs
    then update_by (by_user user) (λ v. record v { value = value; updated_at = now }) vs
    else vs ++ record { id = vote_id; user = user; value = value; updated_at = now } ∷ []

-- `votes_score <= TASK_REJECTION_SCORE`, which is -1.
abbrev pub is_rejected : Task → Bool
is_rejected t = ltb_ℤ (vote_score t.votes) (pos 0)

unfoldable pub after_vote : Task → Task
after_vote t =
    if is_rejected t then record t { status = Status.rejected } else sync_realization_phase t

-- `vote_task`; a value that is no vote is absent here. The task was active, so not yet rejected.
unfoldable pub vote_task : ℕ → Option Value → ℕ → ℕ → Task → Answer × Task
unfolding toggle_vote after_vote
vote_task user value vote_id now t = if not (is_active t) then (denied, t) else elim value [
  | none ↦ (invalid, t)
  | some v ↦ (done, after_vote (record t { votes = toggle_vote user v vote_id now t.votes }))
]

-- `reopen_task`
unfoldable pub reopen_task : ℕ → Task → Answer × Task
reopen_task user t =
    if is_active t
    then (done, t)
    else if refers t.created_by user || refers t.assigned_to user
    then (done, record t { votes = []; status = Status.active; phase = Phase.proposal })
    else (denied, t)

abbrev same_judgement : Judgement → Judgement → Bool
same_judgement Judgement.success Judgement.success = true
same_judgement Judgement.failure Judgement.failure = true
same_judgement _ _ = false

abbrev pub judged_by : ℕ → TaskEvaluation → Bool
judged_by user e = e.user == user

-- `evaluate_task`
unfoldable pub evaluate_task : ℕ → Option Judgement → Task → Answer × Task
evaluate_task user none t = (invalid, t)
evaluate_task user (some j) t = (
  done,
  record t {
    evaluations =
        if exists_by (λ e. e.user == user && same_judgement e.value j) t.evaluations
        then reject_by (judged_by user) t.evaluations
        else if exists_by (judged_by user) t.evaluations
        then update_by (judged_by user) (λ e. record e { value = j }) t.evaluations
        else t.evaluations ++ record { user = user; value = j } ∷ [];
  },
)

-- `delete_task`: what is left of the task.
unfoldable pub delete_task : ℕ → Task → Option Task
delete_task user t =
    if not (refers t.created_by user)
    then some t
    else elim t.status [ Status.completed ↦ some t | _ ↦ none ]
