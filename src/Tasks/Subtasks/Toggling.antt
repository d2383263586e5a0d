-- ===== src/Tasks/Subtasks/Toggling.antt =====
-- Nested steps and the step above them when one is toggled (tasks/views.py, `toggle_subtask`).
use wikikracja.Common.{
  ℕ, ◌≡◌, refl, Bool, true, false, not, ◌&&◌, none, some, List, [], ◌∷◌, ◌==◌, exists_by, update_by,
  arith, Bool-cases, inl, inr, ◌∙◌, sym, ap, subst, ==_iff,
}
use mathlib.Core.Option.{some-injective}
use wikikracja.Tasks.Handlers.{done}
use wikikracja.Tasks.Subtasks.{
  TaskSubtask, has_id, child_of, open_child, complete, find_subtask, close_parent, toggle_found,
  toggle_row, toggle_subtask,
}

-- Steps are nested one level deep: the step `p` is not nested.
abbrev pub IsRoot : ℕ → List TaskSubtask → Type 0
IsRoot p rows = exists_by (λ s. has_id p s && child_of p s) rows ≡ false

abbrev pub differs : Bool → Bool → Bool
differs true b = not b
differs false b = b

-- Every row of step `p` has the value `b`.
abbrev pub Stands : ℕ → Bool → List TaskSubtask → Type 0
Stands p b rows = exists_by (λ s. has_id p s && differs s.is_completed b) rows ≡ false

Stands-complete :
    (p : ℕ) (b : Bool) (rows : List TaskSubtask)
    → Stands p b (update_by (has_id p) (complete b) rows)
Stands-complete p b [] = refl
Stands-complete p b (s ∷ rows) = ground (arith, Stands-complete p b rows)

open-complete :
    (p : ℕ) (b : Bool) (rows : List TaskSubtask)
    → IsRoot p rows
    → exists_by (open_child p) (update_by (has_id p) (complete b) rows)
      ≡ exists_by (open_child p) rows
open-complete p b [] h = refl
open-complete p b (s ∷ rows) h = ground (arith, open-complete p b rows)

-- Completing rows keeps keys and nesting.
exists-complete :
    (q : TaskSubtask → Bool) (k : ℕ) (b : Bool) (rows : List TaskSubtask)
    → ((s : TaskSubtask) → q (complete b s) ≡ q s)
    → exists_by q (update_by (has_id k) (complete b) rows) ≡ exists_by q rows
exists-complete q k b [] h = refl
exists-complete q k b (s ∷ rows) h = ground (arith, h s, exists-complete q k b rows h)

module _ (p : ℕ) (old rows : List TaskSubtask) (here : exists_by (has_id p) rows ≡ true)
    (root : IsRoot p rows) where
  closed : Bool
  closed = not (exists_by (open_child p) rows)

  close_parent_run : close_parent p old rows ≡ (done, update_by (has_id p) (complete closed) rows)
  unfolding close_parent closed
  close_parent_run = rw here refl

  close_parent_lem :
      Stands p
        (not (exists_by (open_child p) (close_parent p old rows).1))
        (close_parent p old rows).1
  unfolding closed
  close_parent_lem =
      rw close_parent_run (rw (open-complete p closed rows root) (Stands-complete p closed rows))

find-id :
    (pk : ℕ) (rows : List TaskSubtask) (s : TaskSubtask) → find_subtask pk rows ≡ some s → s.id ≡ pk
find-id pk [] s e = cc
find-id pk (r ∷ rows) s e = elim (Bool-cases (r.id == pk)) [
  | inl same ↦ ap (λ x. x.id) (sym (some-injective _ _ (rw same at e))) ∙ (==_iff r.id pk).0 same
  | inr other ↦ find-id pk rows s (rw other at e)
]

Stands-children :
    (k j : ℕ) (b : Bool) (rows : List TaskSubtask)
    → Stands k b rows
    → Stands k b (update_by (child_of j) (complete b) rows)
Stands-children k j b [] h = refl
Stands-children k j b (r ∷ rows) h = ground (arith, Stands-children k j b rows)

children-complete :
    (k : ℕ) (b : Bool) (rows : List TaskSubtask)
    → exists_by
        (λ r. child_of k r && differs r.is_completed b)
        (update_by (child_of k) (complete b) rows)
      ≡ false
children-complete k b [] = refl
children-complete k b (r ∷ rows) = ground (arith, children-complete k b rows)

-- The step and the steps below it have the same value.
abbrev pub Carries : ℕ → Bool → List TaskSubtask → Type 0
Carries k b rows =
    Stands k b rows × (exists_by (λ r. child_of k r && differs r.is_completed b) rows ≡ false)

carried :
    (k : ℕ) (b : Bool) (rows : List TaskSubtask)
    → Carries k b (update_by (child_of k) (complete b) (update_by (has_id k) (complete b) rows))
carried k b rows = (
  Stands-children k k b (update_by (has_id k) (complete b) rows) (Stands-complete k b rows),
  children-complete k b (update_by (has_id k) (complete b) rows),
)

module _ (pk : ℕ) (rows : List TaskSubtask) (s : TaskSubtask)
    (row : find_subtask pk rows ≡ some s) where
  -- A nested step was toggled, and the step above it is there and not nested: that step is completed
  -- exactly when none of the steps below it is open.
  pub toggle_subtask-Stands :
      (p : ℕ)
      → s.parent ≡ some p
      → exists_by (has_id p) rows ≡ true
      → IsRoot p rows
      → let (answer, rows') = toggle_subtask true pk rows in
        Stands p (not (exists_by (open_child p) rows')) rows'
  unfolding toggle_subtask toggle_row toggle_found
  toggle_subtask-Stands p above here root = rw row (
      rw above (
        close_parent_lem p rows (update_by (has_id s.id) (complete (not s.is_completed)) rows)
          (exists-complete (has_id p) s.id (not s.is_completed) rows (λ r. refl) ∙ here)
          (exists-complete (λ r. has_id p r && child_of p r) s.id (not s.is_completed) rows
              (λ r. refl)
            ∙ root)))

  -- When a user who may change the steps toggles a step of the list that is not nested, that step and
  -- all steps below it have the opposite value of the one it had.
  pub toggle_subtask-Carries :
      s.parent ≡ none
      → let (answer, rows') = toggle_subtask true pk rows in Carries pk (not s.is_completed) rows'
  unfolding toggle_subtask toggle_row toggle_found
  toggle_subtask-Carries above =
      subst (λ k. Carries k (not s.is_completed) (toggle_subtask true pk rows).1)
        (find-id pk rows s row) (rw row (rw above (carried s.id (not s.is_completed) rows)))
