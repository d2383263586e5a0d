-- ===== src/Tasks/Subtasks/Moving.antt =====
-- Moving, nesting and reordering the steps of an activity (tasks/views.py `move_subtask`,
-- `indent_subtask`, `outdent_subtask`, `reorder_subtasks`, `_normalize_subtask_orders`).
use wikikracja.Common.{
  ℕ, suc, Bool, true, false, not, ◌&&◌, ◌||◌, Option, none, some, List, [], ◌∷◌, ◌==◌,
  if◌then◌else◌, same_ref, ltb, exists_by, filter_by, update_by, is_some, length, map, sort_by,
}
use wikikracja.Common.Int.{ℤ, pos, negsuc, pos_part, ltb_ℤ}
use wikikracja.Tasks.Handlers.{Answer, done, denied, invalid, missing}
use wikikracja.Tasks.Subtasks.{TaskSubtask, has_id, child_of, find_subtask, later_of, next_order}

-- `ordering = ("order", "pk")`
abbrev comes_first : TaskSubtask → TaskSubtask → Bool
comes_first a b = ltb a.order b.order || (a.order == b.order && ltb a.id b.id)

abbrev pub same_parent : Option ℕ → TaskSubtask → Bool
same_parent p s = same_ref s.parent p

unfoldable pub siblings : Option ℕ → List TaskSubtask → List TaskSubtask
unfolding sort_by
siblings p rows = sort_by comes_first (filter_by (same_parent p) rows)

abbrev pub with_order : ℕ → TaskSubtask → TaskSubtask
with_order i s = record s { order = i }

-- `for order, item in enumerate(items)`
unfoldable pub set_orders : ℕ → List TaskSubtask → List TaskSubtask → List TaskSubtask
set_orders i [] rows = rows
set_orders i (s ∷ ss) rows = set_orders (suc i) ss (update_by (has_id s.id) (with_order i) rows)

-- `_normalize_subtask_orders`
unfoldable pub normalize_subtask_orders : Option ℕ → List TaskSubtask → List TaskSubtask
unfolding set_orders siblings
normalize_subtask_orders p rows = set_orders 0 (siblings p rows) rows

pub data Move : Type 0 where
  up down : Move

abbrev prepend : TaskSubtask → Option (List TaskSubtask) → Option (List TaskSubtask)
prepend s none = none
prepend s (some ss) = some (s ∷ ss)

-- The list with the step moved, if there is a place to move it to.
unfoldable pub moved : Move → ℕ → List TaskSubtask → Option (List TaskSubtask)
moved d k [] = none
moved d k (x ∷ []) = none
moved Move.up k (x ∷ y ∷ ss) =
    let rest = moved Move.up k (y ∷ ss) in
    if x.id == k then none else if y.id == k then some (y ∷ x ∷ ss) else prepend x rest
moved Move.down k (x ∷ y ∷ ss) =
    let rest = moved Move.down k (y ∷ ss) in if x.id == k then some (y ∷ x ∷ ss) else prepend x rest

abbrev pub reordered : Option (List TaskSubtask) → List TaskSubtask → List TaskSubtask
reordered none rows = rows
reordered (some ss) rows = set_orders 0 ss rows

unfoldable pub move_found : Option TaskSubtask → Move → List TaskSubtask → Answer × List TaskSubtask
unfolding moved siblings set_orders
move_found none d rows = (missing, rows)
move_found (some s) d rows = (done, reordered (moved d s.id (siblings s.parent rows)) rows)

-- `move_subtask`; a direction that is neither is refused, and absent here.
unfoldable pub move_subtask : Bool → ℕ → Option Move → List TaskSubtask → Answer × List TaskSubtask
unfolding move_found
move_subtask may_manage pk none rows = (denied, rows)
move_subtask may_manage pk (some d) rows =
    if may_manage then move_found (find_subtask pk rows) d rows else (denied, rows)

-- `roots[index - 1]`, when the step is there and not the first.
unfoldable pub predecessor : ℕ → List TaskSubtask → Option TaskSubtask
predecessor k [] = none
predecessor k (x ∷ []) = none
predecessor k (x ∷ y ∷ ss) =
    let rest = predecessor k (y ∷ ss) in
    if x.id == k then none else if y.id == k then some x else rest

-- `parent.children.aggregate(Max("order"))`
unfoldable pub max_order_below : ℕ → List TaskSubtask → Option ℕ
max_order_below p [] = none
max_order_below p (s ∷ ss) =
    if child_of p s then some (later_of s.order (max_order_below p ss)) else max_order_below p ss

abbrev pub with_parent : Option ℕ → ℕ → TaskSubtask → TaskSubtask
with_parent p i s = record s { parent = p; order = i }

unfoldable pub indent_below : Option TaskSubtask → ℕ → List TaskSubtask → Answer × List TaskSubtask
unfolding max_order_below normalize_subtask_orders
indent_below none pk rows = (denied, rows)
indent_below (some parent) pk rows = if exists_by (child_of pk) rows then (invalid, rows) else (
  done,
  normalize_subtask_orders none (
      update_by (has_id pk)
        (with_parent (some parent.id) (next_order (max_order_below parent.id rows))) rows),
)

-- `indent_subtask`
unfoldable pub indent_subtask : Bool → ℕ → List TaskSubtask → Answer × List TaskSubtask
unfolding indent_below predecessor siblings
indent_subtask may_manage pk rows =
    if may_manage
    then indent_below (predecessor pk (siblings none rows)) pk rows
    else (denied, rows)

-- `roots.insert(parent_index + 1, subtask)`
unfoldable pub insert_after : ℕ → TaskSubtask → List TaskSubtask → List TaskSubtask
insert_after p s [] = []
insert_after p s (x ∷ xs) = if x.id == p then x ∷ s ∷ xs else x ∷ insert_after p s xs

unfoldable pub outdent_from : ℕ → TaskSubtask → List TaskSubtask → Answer × List TaskSubtask
unfolding set_orders insert_after siblings normalize_subtask_orders
outdent_from p s rows =
    if exists_by (has_id p) (siblings none rows)
    then (
      done,
      normalize_subtask_orders (some p) (
          set_orders 0 (insert_after p s (siblings none rows))
            (update_by (has_id s.id) (with_parent none s.order) rows)),
    )
    else (denied, rows)

unfoldable pub outdent_found : Option TaskSubtask → List TaskSubtask → Answer × List TaskSubtask
unfolding outdent_from
outdent_found none rows = (missing, rows)
outdent_found (some s) rows = elim s.parent [
  | none ↦ (denied, rows)
  | some p ↦ outdent_from p s rows
]

-- `outdent_subtask`
unfoldable pub outdent_subtask : Bool → ℕ → List TaskSubtask → Answer × List TaskSubtask
unfolding outdent_found
outdent_subtask may_manage pk rows =
    if may_manage then outdent_found (find_subtask pk rows) rows else (denied, rows)

-- An item of the request body of `reorder_subtasks`.
pub record Item : Type 0 where
  pub id : ℕ
  pub parent : Option ℕ
  pub order : ℤ

unfoldable pub find_item : ℕ → List Item → Option Item
find_item k [] = none
find_item k (i ∷ is) = if i.id == k then some i else find_item k is

abbrev pub names_item : ℕ → Item → Bool
names_item k i = i.id == k

unfoldable pub every {ℓ} : {A : Type ℓ} → (A → Bool) → List A → Bool
every p [] = true
every p (x ∷ xs) = p x && every p xs

-- The items are the steps, each once.
unfoldable pub same_ids : List Item → List TaskSubtask → Bool
unfolding every
same_ids is rows =
    length is == length rows
    && (every (λ i. exists_by (has_id i.id) rows) is
        && every (λ s. exists_by (names_item s.id) is) rows)

abbrev pub is_top : Option Item → Bool
is_top none = false
is_top (some i) = not (is_some i.parent)

-- The parent of an item is another item that has none.
unfoldable pub fits_item : List Item → Item → Bool
unfolding find_item
fits_item is i = elim i.parent [ none ↦ true | some p ↦ is_top (find_item p is) && not (p == i.id) ]

unfoldable pub same_range : ℕ → List ℤ → Bool
same_range k [] = true
same_range k (negsuc n ∷ os) = false
same_range k (pos n ∷ os) = n == k && same_range (suc k) os

-- `sorted(orders) == list(range(len(orders)))`, for the siblings of an item.
unfoldable pub is_ranged : List Item → Item → Bool
unfolding same_range sort_by
is_ranged is i =
    same_range 0
      (sort_by ltb_ℤ (map (λ j. j.order) (filter_by (λ j. same_ref j.parent i.parent) is)))

abbrev pub place_item : Option Item → TaskSubtask → TaskSubtask
place_item none s = s
place_item (some i) s = record s { parent = i.parent; order = pos_part i.order }

unfoldable pub placed_by : List Item → TaskSubtask → TaskSubtask
unfolding find_item
placed_by is s = place_item (find_item s.id is) s

unfoldable pub reorder_items : List Item → List TaskSubtask → Answer × List TaskSubtask
unfolding same_ids fits_item is_ranged placed_by
reorder_items is rows =
    if not (same_ids is rows)
    then (invalid, rows)
    else if not (every (fits_item is) is)
    then (invalid, rows)
    else if not (every (is_ranged is) is)
    then (invalid, rows)
    else (done, map (placed_by is) rows)

-- `reorder_subtasks`; a body of another form is absent.
unfoldable pub reorder_subtasks :
    Bool → Option (List Item) → List TaskSubtask → Answer × List TaskSubtask
unfolding reorder_items
reorder_subtasks may_manage none rows = (invalid, rows)
reorder_subtasks may_manage (some is) rows =
    if may_manage then reorder_items is rows else (denied, rows)
