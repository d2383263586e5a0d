-- ===== src/Tests/Activities.antt =====
-- Runs of activities, and of the notifications of a room.
use wikikracja.Common.{ℕ, ◌≡◌, refl, true, false, none, some, List, [], ◌∷◌, arith, not, exists_by}
use wikikracja.Tasks.Model.{TaskVote, Task, Value, target_phase, vote_score, sync_realization_phase}
use wikikracja.Common.Int.{◌+ℤ◌, pos}
use wikikracja.Tasks.Handlers.{create_task, vote_task}
use wikikracja.Tasks.Phases.{Reachable, IsBacked, reachable_aligned}
use wikikracja.Tasks.Subtasks.Depth
use wikikracja.Tasks.Subtasks.Depth.{reachable-IsNested}
use wikikracja.Tasks.Subtasks.Moving.{indent_subtask, reorder_subtasks}
use wikikracja.Tasks.Subtasks.Nesting.{IsNested}
use wikikracja.Common.Texts.{codes}
use wikikracja.Tasks.Subtasks.{add_subtask, TaskSubtask, toggle_subtask, open_child}
use wikikracja.Tasks.Subtasks.Toggling.{
  Carries, toggle_subtask-Carries, Stands, toggle_subtask-Stands,
}
use wikikracja.Chat.Queue.{Job, Pair, dispatch_or_defer, deliver_due, cool_down}
use wikikracja.Chat.Spacing.{Spaced, reachable-Spaced, reachable_waits}
use wikikracja.Chat.Spacing
use wikikracja.Chat.Latest.{dispatch_or_defer-deliver_due}
use wikikracja.Tests.Data.{task_vote}

-- An activity for one person, with the vote of a second one.
abbrev backed : Task
backed = (vote_task 2 (some Value.up) 8 50 (create_task 1 1 7 40)).1

reachable_aligned_example : (backed.phase ≡ target_phase backed) × IsBacked backed
unfolding vote_task create_task vote_score ◌+ℤ◌ sync_realization_phase
reachable_aligned_example =
    reachable_aligned backed
      (Reachable.voted_on 2 (some Value.up) 8 50 _ (Reachable.created 1 1 7 40)) refl

-- The coordinator 1 leaves an activity that 3 and then 2 voted for.
abbrev led : Task
led = record backed {
  assigned_to = some 1;
  votes = task_vote 1 20 ∷ task_vote 2 12 ∷ task_vote 3 10 ∷ [];
}

abbrev job : ℕ → Job
job k = record { job_id = k }

abbrev room : Pair
room = record { cooldown = none; pending = none; delayed = none; delivered_keys = []; sent = [] }

-- A notification at 1000, and another that comes at 1500.
abbrev notified : Pair
notified = (dispatch_or_defer true (λ _. true) (job 1) 1000 room).1

abbrev waiting : Pair
waiting = (dispatch_or_defer true (λ _. true) (job 2) 1500 notified).1

waiting-Reachable : Spacing.Reachable 1500 waiting
waiting-Reachable =
    Spacing.Reachable.dispatched true (λ _. true) (job 2) 1500 notified
      (Spacing.Reachable.waited 1000 1500 notified (omega arith) (
        Spacing.Reachable.dispatched true (λ _. true) (job 1) 1000 room
          (Spacing.Reachable.fresh 1000)))

-- The second one is delivered when an hour is over.
abbrev told_twice : Pair
told_twice = (deliver_due true (λ _. true) 5000 waiting).1

told_twice-Reachable : Spacing.Reachable 5000 told_twice
told_twice-Reachable =
    Spacing.Reachable.came_due true (λ _. true) 5000 waiting
      (Spacing.Reachable.waited 1500 5000 waiting (omega arith) waiting-Reachable)

reachable-Spaced_example : Spaced ((job 2, 5000) ∷ (job 1, 1000) ∷ [])
unfolding deliver_due dispatch_or_defer
reachable-Spaced_example = reachable-Spaced 5000 told_twice told_twice-Reachable

-- One was sent at 1000.
abbrev cooling : Pair
cooling = record room { cooldown = cool_down 1000; sent = (job 1, 1000) ∷ [] }

dispatch_or_defer-deliver_due_example :
    (deliver_due true
      (λ _. true)
      5000
      (dispatch_or_defer true (λ _. true) (job 2) 1500 cooling).1).1.sent
    ≡ (job 2, 5000) ∷ (job 1, 1000) ∷ []
dispatch_or_defer-deliver_due_example =
    dispatch_or_defer-deliver_due (λ _. true) (job 2) 1500 5000 4600 cooling refl (omega arith)
      (omega arith) refl refl

-- A step with two steps below it, one of them completed.
abbrev steps : List TaskSubtask
steps =
    record { id = 1; parent = none; title = []; is_completed = false; order = 0 }
    ∷ record { id = 2; parent = some 1; title = []; is_completed = false; order = 0 }
    ∷ record { id = 3; parent = some 1; title = []; is_completed = true; order = 1 }
    ∷ []

toggle_subtask-Stands_example :
    let (answer, rows') = toggle_subtask true 2 steps in
    Stands 1 (not (exists_by (open_child 1) rows')) rows'
toggle_subtask-Stands_example =
    toggle_subtask-Stands 2 steps
      (record { id = 2; parent = some 1; title = []; is_completed = false; order = 0 }) refl 1 refl
      refl refl

toggle_subtask-Carries_example :
    let (answer, rows') = toggle_subtask true 1 steps in Carries 1 true rows'
toggle_subtask-Carries_example =
    toggle_subtask-Carries 1 steps
      (record { id = 1; parent = none; title = []; is_completed = false; order = 0 }) refl refl

abbrev step : ℕ → List TaskSubtask → List TaskSubtask
step k rows = (add_subtask true k (codes "step") rows).1

-- Two steps, the second below the first, and then the other way round.
abbrev turned : List TaskSubtask
turned =
    (reorder_subtasks true
      (some (
        record { id = 1; parent = some 2; order = pos 0 }
        ∷ record { id = 2; parent = none; order = pos 0 }
        ∷ []))
      (indent_subtask true 2 (step 2 (step 1 []))).1).1

reachable-IsNested_example : IsNested turned
reachable-IsNested_example = reachable-IsNested turned (
    Depth.Reachable.reordered true _ _ (
      Depth.Reachable.indented true 2 _ (
        Depth.Reachable.added true 2 (codes "step") _
          (Depth.Reachable.added true 1 (codes "step") [] Depth.Reachable.fresh))))

abbrev votes : List TaskVote
votes = task_vote 1 20 ∷ task_vote 2 10 ∷ []
