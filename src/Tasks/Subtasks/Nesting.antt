-- ===== src/Tasks/Subtasks/Nesting.antt =====
-- Steps are nested one level deep at most (tasks/models.py `TaskSubtask.clean`), through all requests of
-- tasks/views.py on steps.
use wikikracja.Common.{
  ℕ, suc, ◌≡◌, refl, sym, ap, subst, ◌∙◌, Bool, true, false, not, ◌&&◌, Option, none, some, List,
  [], ◌∷◌, ◌++◌, ◌==◌, if◌then◌else◌, is_some, exists_by, update_by, Bool-cases, inl, inr, arith,
}
use wikikracja.Common.Texts.{Text, strip}
use wikikracja.Tasks.Handlers.{Answer, done, invalid, missing}
use wikikracja.Tasks.Subtasks.{
  TaskSubtask, has_id, child_of, find_subtask, complete, open_child, is_title, next_order,
  max_order, close_parent, toggle_found, toggle_row, toggle_subtask, add_subtask, edit_subtask,
}
use wikikracja.Tasks.Subtasks.Moving.{
  Move, set_orders, with_order, normalize_subtask_orders, reordered, moved, move_found,
  move_subtask, siblings,
}

-- There is a step `p` that is not nested.
abbrev pub is_root : ℕ → TaskSubtask → Bool
is_root p s = s.id == p && not (is_some s.parent)

abbrev pub root_at : ℕ → List TaskSubtask → Bool
root_at p rows = exists_by (is_root p) rows

abbrev pub is_under : Option ℕ → List TaskSubtask → Bool
is_under none rows = true
is_under (some p) rows = root_at p rows

-- The step above every one of some steps is there and not nested.
abbrev pub AllUnder : List TaskSubtask → List TaskSubtask → Type 0
AllUnder rows [] = Unit
AllUnder rows (s ∷ ss) = (is_under s.parent rows ≡ true) × AllUnder rows ss

abbrev pub IsNested : List TaskSubtask → Type 0
IsNested rows = AllUnder rows rows

pub is_under_mono :
    (o : Option ℕ) (rows rows' : List TaskSubtask)
    → ((p : ℕ) → root_at p rows ≡ true → root_at p rows' ≡ true)
    → is_under o rows ≡ true
    → is_under o rows' ≡ true
is_under_mono none rows rows' h u = refl
is_under_mono (some p) rows rows' h u = h p u

pub AllUnder-mono :
    (rows rows' ss : List TaskSubtask)
    → ((p : ℕ) → root_at p rows ≡ true → root_at p rows' ≡ true)
    → AllUnder rows ss
    → AllUnder rows' ss
AllUnder-mono rows rows' [] h u = tt
AllUnder-mono rows rows' (s ∷ ss) h u =
    (is_under_mono s.parent rows rows' h u.0, AllUnder-mono rows rows' ss h u.1)

-- A change of rows that leaves keys and nesting alone.
abbrev KeepsPlace : (TaskSubtask → TaskSubtask) → Type 0
KeepsPlace f = (s : TaskSubtask) → ((f s).id ≡ s.id) × ((f s).parent ≡ s.parent)

root_at-update_by :
    (p : ℕ) (q : TaskSubtask → Bool) (f : TaskSubtask → TaskSubtask) (rows : List TaskSubtask)
    → KeepsPlace f
    → root_at p (update_by q f rows) ≡ root_at p rows
root_at-update_by p q f [] k = refl
root_at-update_by p q f (s ∷ rows) k =
    ground (arith, (k s).0, ap is_some (k s).1, root_at-update_by p q f rows k)

AllUnder-update_by :
    (rows ss : List TaskSubtask) (q : TaskSubtask → Bool) (f : TaskSubtask → TaskSubtask)
    → KeepsPlace f
    → AllUnder rows ss
    → AllUnder rows (update_by q f ss)
AllUnder-update_by rows [] q f k u = tt
AllUnder-update_by rows (s ∷ ss) q f k u = elim (Bool-cases (q s)) [
  | inl hit ↦
      ground (arith, ap (λ o. is_under o rows) (k s).1, AllUnder-update_by rows ss q f k u.1)
  | inr miss ↦ ground (arith, AllUnder-update_by rows ss q f k u.1)
]

update_by-IsNested :
    (q : TaskSubtask → Bool) (f : TaskSubtask → TaskSubtask) (rows : List TaskSubtask)
    → KeepsPlace f
    → IsNested rows
    → IsNested (update_by q f rows)
update_by-IsNested q f rows k u =
    AllUnder-mono rows (update_by q f rows) (update_by q f rows)
      (λ p r. root_at-update_by p q f rows k ∙ r) (AllUnder-update_by rows rows q f k u)

pub set_orders-IsNested :
    (i : ℕ) (ss rows : List TaskSubtask) → IsNested rows → IsNested (set_orders i ss rows)
unfolding set_orders
set_orders-IsNested i [] rows u = u
set_orders-IsNested i (s ∷ ss) rows u =
    set_orders-IsNested (suc i) ss (update_by (has_id s.id) (with_order i) rows)
      (update_by-IsNested (has_id s.id) (with_order i) rows (λ r. (refl, refl)) u)

pub normalize_subtask_orders-IsNested :
    (p : Option ℕ) (rows : List TaskSubtask)
    → IsNested rows
    → IsNested (normalize_subtask_orders p rows)
unfolding normalize_subtask_orders
normalize_subtask_orders-IsNested p rows u = set_orders-IsNested 0 (siblings p rows) rows u

reordered-IsNested :
    (o : Option (List TaskSubtask)) (rows : List TaskSubtask)
    → IsNested rows
    → IsNested (reordered o rows)
reordered-IsNested none rows u = u
reordered-IsNested (some ss) rows u = set_orders-IsNested 0 ss rows u

move_found-IsNested :
    (o : Option TaskSubtask) (d : Move) (rows : List TaskSubtask)
    → IsNested rows
    → IsNested (move_found o d rows).1
unfolding move_found
move_found-IsNested none d rows u = u
move_found-IsNested (some s) d rows u =
    reordered-IsNested (moved d s.id (siblings s.parent rows)) rows u

pub if-IsNested :
    (b : Bool) (x y : Answer × List TaskSubtask)
    → (b ≡ true → IsNested x.1)
    → (b ≡ false → IsNested y.1)
    → IsNested (if b then x else y).1
if-IsNested true x y p q = p refl
if-IsNested false x y p q = q refl

pub move_subtask-IsNested :
    (m : Bool) (pk : ℕ) (d : Option Move) (rows : List TaskSubtask)
    → IsNested rows
    → IsNested (move_subtask m pk d rows).1
unfolding move_subtask
move_subtask-IsNested m pk none rows u = u
move_subtask-IsNested m pk (some d) rows u =
    if-IsNested m _ _ (λ h. move_found-IsNested (find_subtask pk rows) d rows u) (λ h. u)

complete-IsNested :
    (q : TaskSubtask → Bool) (b : Bool) (rows : List TaskSubtask)
    → IsNested rows
    → IsNested (update_by q (complete b) rows)
complete-IsNested q b rows u = update_by-IsNested q (complete b) rows (λ s. (refl, refl)) u

close_parent-IsNested :
    (p : ℕ) (old rows : List TaskSubtask)
    → IsNested old
    → IsNested rows
    → IsNested (close_parent p old rows).1
unfolding close_parent
close_parent-IsNested p old rows v u =
    if-IsNested (exists_by (has_id p) rows) _ _
      (λ h. complete-IsNested (has_id p) (not (exists_by (open_child p) rows)) rows u) (λ h. v)

toggle_row-IsNested :
    (o : Option TaskSubtask) (rows : List TaskSubtask)
    → IsNested rows
    → IsNested (toggle_row o rows).1
unfolding toggle_row
toggle_row-IsNested none rows u = u
toggle_row-IsNested (some s) rows u = toggle_found-IsNested s.parent
  where
    once : IsNested (update_by (has_id s.id) (complete (not s.is_completed)) rows)
    once = complete-IsNested (has_id s.id) (not s.is_completed) rows u

    toggle_found-IsNested : (p : Option ℕ) → IsNested (toggle_found s p rows).1
    toggle_found-IsNested none =
        complete-IsNested (child_of s.id) (not s.is_completed)
          (update_by (has_id s.id) (complete (not s.is_completed)) rows) once
    toggle_found-IsNested (some p) =
        close_parent-IsNested p rows (update_by (has_id s.id) (complete (not s.is_completed)) rows)
          u once

pub toggle_subtask-IsNested :
    (m : Bool) (pk : ℕ) (rows : List TaskSubtask)
    → IsNested rows
    → IsNested (toggle_subtask m pk rows).1
unfolding toggle_subtask
toggle_subtask-IsNested m pk rows u =
    if-IsNested m _ _ (λ h. toggle_row-IsNested (find_subtask pk rows) rows u) (λ h. u)

root_at-append :
    (p : ℕ) (rows ss : List TaskSubtask) → root_at p rows ≡ true → root_at p (rows ++ ss) ≡ true
root_at-append p [] ss h = ground arith
root_at-append p (s ∷ rows) ss h = ground (arith, root_at-append p rows ss)

AllUnder-append :
    (rows ss : List TaskSubtask) (s : TaskSubtask)
    → AllUnder rows ss
    → s.parent ≡ none
    → AllUnder rows (ss ++ s ∷ [])
AllUnder-append rows [] s u h = (subst (λ o. is_under o rows ≡ true) (sym h) refl, tt)
AllUnder-append rows (r ∷ ss) s u h = (u.0, AllUnder-append rows ss s u.1 h)

pub add_subtask-IsNested :
    (m : Bool) (k : ℕ) (title : Text) (rows : List TaskSubtask)
    → IsNested rows
    → IsNested (add_subtask m k title rows).1
unfolding add_subtask
add_subtask-IsNested m k title rows u =
    if-IsNested (not m) _ _ (λ h. u)
      (λ h.
        if-IsNested (is_title (strip title)) (done, rows ++ added ∷ []) (invalid, rows)
          (λ g.
            AllUnder-mono rows (rows ++ added ∷ []) (rows ++ added ∷ [])
              (λ p. root_at-append p rows (added ∷ [])) (AllUnder-append rows rows added u refl))
          (λ g. u))
  where
    added : TaskSubtask
    added = record {
      id = k;
      parent = none;
      title = strip title;
      is_completed = false;
      order = next_order (max_order rows);
    }

pub edit_subtask-IsNested :
    (m : Bool) (pk : ℕ) (title : Text) (rows : List TaskSubtask)
    → IsNested rows
    → IsNested (edit_subtask m pk title rows).1
unfolding edit_subtask
edit_subtask-IsNested m pk title rows u =
    if-IsNested (not m) _ _ (λ h. u)
      (λ h.
        if-IsNested (is_title (strip title))
          (if exists_by (has_id pk) rows then (done, edited) else (missing, rows)) (invalid, rows)
          (λ g.
            if-IsNested (exists_by (has_id pk) rows) (done, edited) (missing, rows)
              (λ f.
                update_by-IsNested (has_id pk) (λ s. record s { title = strip title }) rows
                  (λ s. (refl, refl)) u)
              (λ f. u))
          (λ g. u))
  where
    edited : List TaskSubtask
    edited = update_by (has_id pk) (λ s. record s { title = strip title }) rows
