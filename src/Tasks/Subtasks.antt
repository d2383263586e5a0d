-- ===== src/Tasks/Subtasks.antt =====
-- The steps of an activity (tasks/models.py `TaskSubtask`; tasks/views.py `add_subtask`,
-- `edit_subtask`, `toggle_subtask`, `delete_subtask`). The rows are those of one activity; moving and
-- nesting them is in Moving. `may_manage` is `can_manage_subtasks`.
pub mod Moving
pub mod Nesting
pub mod Roots
pub mod Requests
pub mod Depth
pub mod Toggling
use wikikracja.Common.{
  ℕ, suc, ◌+◌, Bool, true, false, not, ◌&&◌, ◌||◌, Option, none, some, List, [], ◌∷◌, ◌++◌, ◌==◌,
  if◌then◌else◌, refers, ltb, exists_by, reject_by, update_by, is_some, length,
}
use wikikracja.Common.Texts.{Text, strip}
use wikikracja.Tasks.Handlers.{Answer, done, denied, invalid, missing}

pub record TaskSubtask : Type 0 where
  pub id : ℕ
  pub parent : Option ℕ
  pub title : Text
  pub is_completed : Bool
  pub order : ℕ

abbrev pub has_id : ℕ → TaskSubtask → Bool
has_id k s = s.id == k

abbrev pub child_of : ℕ → TaskSubtask → Bool
child_of k s = refers s.parent k

abbrev pub open_child : ℕ → TaskSubtask → Bool
open_child k s = refers s.parent k && not s.is_completed

abbrev pub find_subtask : ℕ → List TaskSubtask → Option TaskSubtask
find_subtask k [] = none
find_subtask k (s ∷ ss) = if s.id == k then some s else find_subtask k ss

-- `if not title or len(title) > 240`
abbrev pub is_title : Text → Bool
is_title t = ltb 0 (length t) && ltb (length t) 241

abbrev pub later_of : ℕ → Option ℕ → ℕ
later_of n none = n
later_of n (some m) = if ltb n m then m else n

-- `Max("order")` of the steps that are not nested.
unfoldable pub max_order : List TaskSubtask → Option ℕ
max_order [] = none
max_order (s ∷ ss) =
    if is_some s.parent then max_order ss else some (later_of s.order (max_order ss))

abbrev pub next_order : Option ℕ → ℕ
next_order none = 0
next_order (some n) = suc n

-- `add_subtask`; the key of the new row comes from the database.
pub add_subtask : Bool → ℕ → Text → List TaskSubtask → Answer × List TaskSubtask
unfolding max_order
add_subtask may_manage new_id title rows =
    if not may_manage
    then (denied, rows)
    else if is_title (strip title)
    then (
      done,
      rows
          ++ record {
            id = new_id;
            parent = none;
            title = strip title;
            is_completed = false;
            order = next_order (max_order rows);
          }
            ∷ [],
    )
    else (invalid, rows)

-- `edit_subtask`
pub edit_subtask : Bool → ℕ → Text → List TaskSubtask → Answer × List TaskSubtask
edit_subtask may_manage pk title rows =
    if not may_manage
    then (denied, rows)
    else if is_title (strip title)
    then if exists_by (has_id pk) rows
      then (done, update_by (has_id pk) (λ s. record s { title = strip title }) rows)
      else (missing, rows)
    else (invalid, rows)

abbrev pub complete : Bool → TaskSubtask → TaskSubtask
complete b s = record s { is_completed = b }

-- The parent of a step that was toggled is completed when none of its steps is open; a parent that is
-- not there is "not found", and nothing is kept.
unfoldable pub close_parent : ℕ → List TaskSubtask → List TaskSubtask → Answer × List TaskSubtask
close_parent p old rows =
    if exists_by (has_id p) rows
    then (done, update_by (has_id p) (complete (not (exists_by (open_child p) rows))) rows)
    else (missing, old)

unfoldable pub toggle_found : TaskSubtask → Option ℕ → List TaskSubtask → Answer × List TaskSubtask
unfolding close_parent
toggle_found s none rows = (
  done,
  update_by (child_of s.id) (complete (not s.is_completed))
      (update_by (has_id s.id) (complete (not s.is_completed)) rows),
)
toggle_found s (some p) rows =
    close_parent p rows (update_by (has_id s.id) (complete (not s.is_completed)) rows)

unfoldable pub toggle_row : Option TaskSubtask → List TaskSubtask → Answer × List TaskSubtask
unfolding toggle_found
toggle_row none rows = (missing, rows)
toggle_row (some s) rows = toggle_found s s.parent rows

-- `toggle_subtask`
unfoldable pub toggle_subtask : Bool → ℕ → List TaskSubtask → Answer × List TaskSubtask
unfolding toggle_row
toggle_subtask may_manage pk rows =
    if may_manage then toggle_row (find_subtask pk rows) rows else (denied, rows)

-- `delete_subtask`: a step with nested steps stays.
pub delete_subtask : Bool → ℕ → List TaskSubtask → Answer × List TaskSubtask
delete_subtask may_manage pk rows =
    if not may_manage
    then (denied, rows)
    else if not (exists_by (has_id pk) rows)
    then (missing, rows)
    else if exists_by (child_of pk) rows
    then (invalid, rows)
    else (done, reject_by (has_id pk) rows)
