-- ===== src/Tasks/Subtasks/Depth.antt =====
-- Steps of an activity through any requests of tasks/views.py on them.
use wikikracja.Common.{ℕ, Bool, Option, List, []}
use wikikracja.Common.Texts.{Text}
use wikikracja.Tasks.Subtasks.{
  TaskSubtask, toggle_subtask, add_subtask, edit_subtask, delete_subtask,
}
use wikikracja.Tasks.Subtasks.Moving.{
  Move, Item, move_subtask, indent_subtask, outdent_subtask, reorder_subtasks,
}
use wikikracja.Tasks.Subtasks.Nesting.{
  IsNested, move_subtask-IsNested, toggle_subtask-IsNested, add_subtask-IsNested,
  edit_subtask-IsNested,
}
use wikikracja.Tasks.Subtasks.Roots.{delete_subtask-IsNested}
use wikikracja.Tasks.Subtasks.Requests.{
  indent_subtask-IsNested, outdent_subtask-IsNested, reorder_subtasks-IsNested,
}

-- The steps that an activity can have: none at first, and what its requests leave.
pub data Reachable : List TaskSubtask → Type 0 where
  fresh : Reachable []
  added :
      (m : Bool) (k : ℕ) (title : Text) (rows : List TaskSubtask)
      → Reachable rows
      → Reachable (add_subtask m k title rows).1
  edited :
      (m : Bool) (pk : ℕ) (title : Text) (rows : List TaskSubtask)
      → Reachable rows
      → Reachable (edit_subtask m pk title rows).1
  toggled :
      (m : Bool) (pk : ℕ) (rows : List TaskSubtask)
      → Reachable rows
      → Reachable (toggle_subtask m pk rows).1
  deleted :
      (m : Bool) (pk : ℕ) (rows : List TaskSubtask)
      → Reachable rows
      → Reachable (delete_subtask m pk rows).1
  shifted :
      (m : Bool) (pk : ℕ) (d : Option Move) (rows : List TaskSubtask)
      → Reachable rows
      → Reachable (move_subtask m pk d rows).1
  indented :
      (m : Bool) (pk : ℕ) (rows : List TaskSubtask)
      → Reachable rows
      → Reachable (indent_subtask m pk rows).1
  outdented :
      (m : Bool) (pk : ℕ) (rows : List TaskSubtask)
      → Reachable rows
      → Reachable (outdent_subtask m pk rows).1
  reordered :
      (m : Bool) (is : Option (List Item)) (rows : List TaskSubtask)
      → Reachable rows
      → Reachable (reorder_subtasks m is rows).1

-- Whatever requests add, edit, toggle, delete, move, nest, lift and reorder the steps of an activity,
-- whoever sends them and with whatever body, each nested step is below a step that is there and is
-- not nested itself.
pub reachable-IsNested : (rows : List TaskSubtask) → Reachable rows → IsNested rows
reachable-IsNested _ Reachable.fresh = tt
reachable-IsNested _ (Reachable.added m k title rows r) =
    add_subtask-IsNested m k title rows (reachable-IsNested rows r)
reachable-IsNested _ (Reachable.edited m pk title rows r) =
    edit_subtask-IsNested m pk title rows (reachable-IsNested rows r)
reachable-IsNested _ (Reachable.toggled m pk rows r) =
    toggle_subtask-IsNested m pk rows (reachable-IsNested rows r)
reachable-IsNested _ (Reachable.deleted m pk rows r) =
    delete_subtask-IsNested m pk rows (reachable-IsNested rows r)
reachable-IsNested _ (Reachable.shifted m pk d rows r) =
    move_subtask-IsNested m pk d rows (reachable-IsNested rows r)
reachable-IsNested _ (Reachable.indented m pk rows r) =
    indent_subtask-IsNested m pk rows (reachable-IsNested rows r)
reachable-IsNested _ (Reachable.outdented m pk rows r) =
    outdent_subtask-IsNested m pk rows (reachable-IsNested rows r)
reachable-IsNested _ (Reachable.reordered m is rows r) =
    reorder_subtasks-IsNested m is rows (reachable-IsNested rows r)
