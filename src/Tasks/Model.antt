-- ===== src/Tasks/Model.antt =====
-- Activities with their votes and teams (tasks/models.py). A task holds its own rows: its votes, the
-- helpers that the coordinator approved, and the evaluations. Users are named by primary keys, points
-- in time are numbers.
use wikikracja.Common.{
  ℕ, ◌+◌, Bool, true, false, not, ◌&&◌, ◌||◌, Option, none, some, List, [], ◌∷◌, ◌==◌,
  if◌then◌else◌, refers, leb, length, exists_by, reject_by, bit, is_some,
}
use wikikracja.Common.Int.{ℤ, pos, negsuc, ◌+ℤ◌, ltb_ℤ}

-- `Task.Status` and `Task.Phase`
pub data Status : Type 0 where
  active completed cancelled rejected : Status

pub data Phase : Type 0 where
  proposal realization : Phase

-- `TaskVote.Value`
pub data Value : Type 0 where
  down up : Value

pub record TaskVote : Type 0 where
  pub id : ℕ
  pub user : ℕ
  pub value : Value
  pub updated_at : ℕ

-- `TaskEvaluation.Value`
pub data Judgement : Type 0 where
  success failure : Judgement

pub record TaskEvaluation : Type 0 where
  pub user : ℕ
  pub value : Judgement

pub record Task : Type 0 where
  pub status : Status
  pub phase : Phase
  pub required_people : Option ℕ
  pub created_by : Option ℕ
  pub assigned_to : Option ℕ
  pub team_mode : Bool
  pub approved_helpers : List ℕ
  pub votes : List TaskVote
  pub evaluations : List TaskEvaluation

abbrev pub realization_vote_threshold : ℤ
realization_vote_threshold = pos 2

abbrev pub is_active_status : Status → Bool
is_active_status Status.active = true
is_active_status _ = false

-- `is_active`
abbrev pub is_active : Task → Bool
is_active t = is_active_status t.status

abbrev pub same_value : Value → Value → Bool
same_value Value.down Value.down = true
same_value Value.up Value.up = true
same_value _ _ = false

abbrev pub helps : ℕ → TaskVote → Bool
helps k v = v.user == k && same_value v.value Value.up

-- `is_user_helper`
abbrev pub is_user_helper : ℕ → Task → Bool
is_user_helper k t = exists_by (helps k) t.votes

-- `is_user_approved`
abbrev pub is_user_approved : ℕ → Task → Bool
is_user_approved k t = refers t.assigned_to k || exists_by (λ h. h == k) t.approved_helpers

-- `if self.assigned_to_id`: keys start at 1, and 0 would count as absent.
abbrev pub truthy : Option ℕ → Bool
truthy none = false
truthy (some k) = not (k == 0)

-- The helpers other than the coordinator.
abbrev pub other_helpers : Option ℕ → List ℕ → List ℕ
other_helpers none hs = hs
other_helpers (some k) hs = if k == 0 then hs else reject_by (λ h. h == k) hs

-- `get_team_size`
unfoldable pub get_team_size : Task → ℕ
get_team_size t =
    bit (is_some t.assigned_to) + length (other_helpers t.assigned_to t.approved_helpers)

abbrev pub value_of : Value → ℤ
value_of Value.down = negsuc 0
value_of Value.up = pos 1

-- `Sum("value")` of the votes, or 0.
unfoldable pub vote_score : List TaskVote → ℤ
vote_score [] = pos 0
vote_score (v ∷ vs) = value_of v.value +ℤ vote_score vs

-- `task.required_people or 1`
abbrev pub people_or_one : Option ℕ → ℕ
people_or_one none = 1
people_or_one (some n) = if n == 0 then 1 else n

unfoldable pub is_ready : Task → Bool
unfolding get_team_size vote_score
is_ready t =
    truthy t.assigned_to
    && not (ltb_ℤ (vote_score t.votes) realization_vote_threshold)
    && leb (people_or_one t.required_people) (get_team_size t)

unfoldable pub target_phase : Task → Phase
unfolding is_ready
target_phase t = if is_ready t then Phase.realization else Phase.proposal

-- `sync_realization_phase`: a task that is not active is left as it is.
unfoldable pub sync_realization_phase : Task → Task
unfolding target_phase
sync_realization_phase t = if is_active t then record t { phase = target_phase t } else t

-- `can_manage_subtasks`
abbrev pub can_manage_subtasks : ℕ → Task → Bool
can_manage_subtasks k t = is_active t && is_user_approved k t

-- `can_user_post`: an old task's room is open to every member.
pub can_user_post : ℕ → Task → Bool
can_user_post k t = if t.team_mode then is_user_approved k t else true
