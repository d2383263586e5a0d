-- ===== src/Tasks/Subtasks/Roots.antt =====
-- Which steps are not nested after a step was deleted or put below another (tasks/views.py,
-- `delete_subtask`, `indent_subtask`).
use wikikracja.Common.{
  ℕ, ◌≡◌, refl, ap, ◌∙◌, Bool, true, false, not, ◌&&◌, ◌||◌, Option, none, some, List, [], ◌∷◌,
  ◌==◌, refers, is_some, exists_by, filter_by, reject_by, update_by, Bool-cases, inl, inr, arith,
  sort_by, insert_by,
}
use wikikracja.Tasks.Subtasks.{TaskSubtask, has_id, child_of, delete_subtask}
use wikikracja.Tasks.Subtasks.Moving.{predecessor, with_parent, siblings, same_parent}
use wikikracja.Tasks.Subtasks.Nesting.{is_root, root_at, is_under, AllUnder, IsNested}

root_at-reject_by :
    (p k : ℕ) (rows : List TaskSubtask)
    → root_at p (reject_by (has_id k) rows) ≡ (root_at p rows && not (p == k))
root_at-reject_by p k [] = refl
root_at-reject_by p k (s ∷ rows) = ground (arith, root_at-reject_by p k rows)

is_under-reject_by :
    (o : Option ℕ) (k : ℕ) (rows : List TaskSubtask)
    → is_under o rows ≡ true
    → refers o k ≡ false
    → is_under o (reject_by (has_id k) rows) ≡ true
is_under-reject_by none k rows u n = refl
is_under-reject_by (some p) k rows u n = ground (arith, root_at-reject_by p k rows)

AllUnder-reject_by :
    (k : ℕ) (rows ss : List TaskSubtask)
    → AllUnder rows ss
    → exists_by (child_of k) ss ≡ false
    → AllUnder (reject_by (has_id k) rows) (reject_by (has_id k) ss)
AllUnder-reject_by k rows [] u n = tt
AllUnder-reject_by k rows (s ∷ ss) u n = elim (Bool-cases (s.id == k)) [
  | inl gone ↦ ground (arith, AllUnder-reject_by k rows ss u.1)
  | inr stays ↦
      ground (arith, AllUnder-reject_by k rows ss u.1, is_under-reject_by s.parent k rows u.0)
]

pub delete_subtask-IsNested :
    (m : Bool) (pk : ℕ) (rows : List TaskSubtask)
    → IsNested rows
    → IsNested (delete_subtask m pk rows).1
unfolding delete_subtask
delete_subtask-IsNested m pk rows u = elim (Bool-cases (exists_by (child_of pk) rows)) [
  | inl parent ↦ ground arith
  | inr leaf ↦ ground (arith, AllUnder-reject_by pk rows rows u leaf)
]

-- A step that goes below another is no longer a root, and all other roots stay.
root_at-indented :
    (p j k i : ℕ) (rows : List TaskSubtask)
    → root_at p (update_by (has_id k) (with_parent (some j) i) rows)
      ≡ (root_at p rows && not (p == k))
root_at-indented p j k i [] = refl
root_at-indented p j k i (s ∷ rows) = ground (arith, root_at-indented p j k i rows)

is_under-indented :
    (o : Option ℕ) (j k i : ℕ) (rows : List TaskSubtask)
    → is_under o rows ≡ true
    → refers o k ≡ false
    → is_under o (update_by (has_id k) (with_parent (some j) i) rows) ≡ true
is_under-indented none j k i rows u n = refl
is_under-indented (some p) j k i rows u n = ground (arith, root_at-indented p j k i rows)

pub AllUnder-indented :
    (j k i : ℕ) (rows ss : List TaskSubtask)
    → root_at j rows ≡ true
    → (j == k) ≡ false
    → AllUnder rows ss
    → exists_by (child_of k) ss ≡ false
    → AllUnder
        (update_by (has_id k) (with_parent (some j) i) rows)
        (update_by (has_id k) (with_parent (some j) i) ss)
AllUnder-indented j k i rows [] r d u n = tt
AllUnder-indented j k i rows (s ∷ ss) r d u n = elim (Bool-cases (s.id == k)) [
  | inl it ↦ ground (arith, AllUnder-indented j k i rows ss r d u.1, root_at-indented j j k i rows)
  | inr other ↦
      ground
        (arith, AllUnder-indented j k i rows ss r d u.1, is_under-indented s.parent j k i rows u.0)
]

exists_by-sort_by :
    (q : TaskSubtask → Bool) (before : TaskSubtask → TaskSubtask → Bool) (ss : List TaskSubtask)
    → exists_by q (sort_by before ss) ≡ exists_by q ss
unfolding sort_by
exists_by-sort_by q before [] = refl
exists_by-sort_by q before (s ∷ ss) =
    exists_by-insert_by s (sort_by before ss) ∙ ap (λ b. q s || b) (exists_by-sort_by q before ss)
  where
    exists_by-insert_by :
        (s : TaskSubtask) (ss : List TaskSubtask)
        → exists_by q (insert_by before s ss) ≡ (q s || exists_by q ss)
    exists_by-insert_by s [] = refl
    exists_by-insert_by s (r ∷ ss) = ground (arith, exists_by-insert_by s ss)

exists_by-filter_by :
    (q p : TaskSubtask → Bool) (ss : List TaskSubtask)
    → exists_by q (filter_by p ss) ≡ exists_by (λ s. p s && q s) ss
exists_by-filter_by q p [] = refl
exists_by-filter_by q p (s ∷ ss) = ground (arith, exists_by-filter_by q p ss)

exists_by-both_ways :
    (q r : TaskSubtask → Bool) (ss : List TaskSubtask)
    → ((s : TaskSubtask) → q s ≡ r s)
    → exists_by q ss ≡ exists_by r ss
exists_by-both_ways q r [] h = refl
exists_by-both_ways q r (s ∷ ss) h = ground (arith, h s, exists_by-both_ways q r ss h)

-- The steps that are not nested, in their order.
pub root_at-siblings :
    (p : ℕ) (rows : List TaskSubtask) → root_at p (siblings none rows) ≡ root_at p rows
unfolding siblings
root_at-siblings p rows =
    exists_by-sort_by (is_root p) _ (filter_by (same_parent none) rows)
    ∙ exists_by-filter_by (is_root p) (same_parent none) rows
    ∙ exists_by-both_ways (λ s. same_parent none s && is_root p s) (is_root p) rows
        (λ s. ground arith)

abbrev nested : TaskSubtask → Bool
nested s = is_some s.parent

pub none-nested : (rows : List TaskSubtask) → exists_by nested (siblings none rows) ≡ false
unfolding siblings
none-nested rows =
    exists_by-sort_by nested _ (filter_by (same_parent none) rows)
    ∙ exists_by-filter_by nested (same_parent none) rows
    ∙ never rows
  where
    never : (ss : List TaskSubtask) → exists_by (λ s. same_parent none s && nested s) ss ≡ false
    never [] = refl
    never (s ∷ ss) = ground (arith, never ss)

pub predecessor_lem :
    (k : ℕ) (ss : List TaskSubtask) (x : TaskSubtask)
    → exists_by nested ss ≡ false
    → predecessor k ss ≡ some x
    → (root_at x.id ss ≡ true) × ((x.id == k) ≡ false)
unfolding predecessor
predecessor_lem k [] x n h = ground arith
predecessor_lem k (s ∷ []) x n h = ground arith
predecessor_lem k (s ∷ r ∷ ss) x n h = ground (arith, predecessor_lem k (r ∷ ss) x)
