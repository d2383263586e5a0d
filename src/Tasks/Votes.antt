-- ===== src/Tasks/Votes.antt =====
-- The votes on an activity and the coordinator's successor (tasks/views.py, `vote_task`,
-- `resign_task`).
use wikikracja.Common.{ℕ, ◌≤◌, ◌<◌, ◌≡◌, ◌≢◌, ◌⊎◌, All, Option, none, some, List, [], ◌∷◌, count_by}
use wikikracja.Tasks.Model.{Task, Value, TaskVote}
use wikikracja.Tasks.Handlers.{by_user, voter}

-- `unique_together = ("task", "user")`
abbrev pub IsUnique : List TaskVote → Type 0
IsUnique vs = (k : ℕ) → count_by (by_user k) vs ≤ 1

-- The vote is against, or that of the user.
abbrev pub IsUnfit : ℕ → TaskVote → Type 0
IsUnfit user w = (w.value ≡ Value.down) ⊎ (w.user ≡ user)

abbrev pub NotAfter : TaskVote → TaskVote → Type 0
NotAfter v w = (v.updated_at < w.updated_at) ⊎ ((v.updated_at ≡ w.updated_at) × (v.id ≤ w.id))

abbrev pub IsIn : TaskVote → List TaskVote → Type 0
IsIn v [] = ⊥
IsIn v (w ∷ vs) = (w ≡ v) ⊎ IsIn v vs

-- The vote for the activity, of another user, that comes before the other such votes; none is chosen
-- when all are unfit.
abbrev pub Chooses : ℕ → List TaskVote → Option TaskVote → Type 0
Chooses user vs none = All (IsUnfit user) vs
Chooses user vs (some v) =
    IsIn v vs × (v.value ≡ Value.up) × (v.user ≢ user) × All (λ w. IsUnfit user w ⊎ NotAfter v w) vs

-- Whom a coordinator who resigns hands an activity over to.
abbrev pub HandsOver : ℕ → Task → Task → Type 0
HandsOver user t t' = (o : Option TaskVote) × Chooses user t.votes o × (t'.assigned_to ≡ voter o)
