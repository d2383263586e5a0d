-- ===== src/Tasks/Subtasks/Requests.antt =====
-- `indent_subtask`, `outdent_subtask` and `reorder_subtasks` of tasks/views.py, and how deep steps are
-- nested after them.
use wikikracja.Common.{
  ℕ, ◌≡◌, refl, sym, ap, subst, ◌∙◌, Bool, true, false, not, Option, none, some, List, [], ◌∷◌,
  ◌==◌, is_some, exists_by, update_by, map, Bool-cases, Option-cases, inl, inr, arith, eq_of,
}
use wikikracja.Tasks.Handlers.{Answer, denied}
use wikikracja.Tasks.Subtasks.{TaskSubtask, has_id, child_of, find_subtask}
use wikikracja.Tasks.Subtasks.Moving.{
  Item, predecessor, indent_below, indent_subtask, with_parent, insert_after, outdent_from,
  outdent_found, outdent_subtask, find_item, every, fits_item, is_top, same_ids, placed_by,
  place_item, reorder_items, reorder_subtasks, siblings, names_item, is_ranged,
}
use wikikracja.Tasks.Subtasks.Nesting.{
  root_at, is_under, AllUnder, IsNested, AllUnder-mono, set_orders-IsNested,
  normalize_subtask_orders-IsNested, if-IsNested,
}
use wikikracja.Tasks.Subtasks.Roots.{
  AllUnder-indented, root_at-siblings, none-nested, predecessor_lem,
}

indent_below-IsNested :
    (x : TaskSubtask) (pk : ℕ) (rows : List TaskSubtask)
    → root_at x.id rows ≡ true
    → (x.id == pk) ≡ false
    → IsNested rows
    → IsNested (indent_below (some x) pk rows).1
unfolding indent_below
indent_below-IsNested x pk rows r d u =
    if-IsNested (exists_by (child_of pk) rows) _ _ (λ parent. u)
      (λ leaf.
        normalize_subtask_orders-IsNested none _ (AllUnder-indented x.id pk _ rows rows r d u leaf))

pub indent_subtask-IsNested :
    (m : Bool) (pk : ℕ) (rows : List TaskSubtask)
    → IsNested rows
    → IsNested (indent_subtask m pk rows).1
unfolding indent_subtask
indent_subtask-IsNested m pk rows u =
    if-IsNested m _ _ (λ h. cases (predecessor pk (siblings none rows)) refl) (λ h. u)
  where
    cases :
        (o : Option TaskSubtask)
        → predecessor pk (siblings none rows) ≡ o
        → IsNested (indent_below o pk rows).1
    cases none e = u
    cases (some x) e =
        let found = predecessor_lem pk (siblings none rows) x (none-nested rows) e in
        indent_below-IsNested x pk rows (sym (root_at-siblings x.id rows) ∙ found.0) found.1 u

root_at-outdented :
    (p k i : ℕ) (rows : List TaskSubtask)
    → root_at p rows ≡ true
    → root_at p (update_by (has_id k) (with_parent none i) rows) ≡ true
root_at-outdented p k i [] r = r
root_at-outdented p k i (s ∷ rows) r = ground (arith, root_at-outdented p k i rows)

AllUnder-outdented :
    (k i : ℕ) (rows ss : List TaskSubtask)
    → AllUnder rows ss
    → AllUnder rows (update_by (has_id k) (with_parent none i) ss)
AllUnder-outdented k i rows [] u = tt
AllUnder-outdented k i rows (s ∷ ss) u = ground (arith, AllUnder-outdented k i rows ss u.1)

outdent_from-IsNested :
    (p : ℕ) (s : TaskSubtask) (rows : List TaskSubtask)
    → IsNested rows
    → IsNested (outdent_from p s rows).1
unfolding outdent_from
outdent_from-IsNested p s rows u =
    if-IsNested (exists_by (has_id p) (siblings none rows)) _ _
      (λ h. normalize_subtask_orders-IsNested (some p) _ (
        set_orders-IsNested 0 (insert_after p s (siblings none rows)) raised (
          AllUnder-mono rows raised raised (λ q. root_at-outdented q s.id s.order rows)
            (AllUnder-outdented s.id s.order rows rows u))))
      (λ h. u)
  where
    raised : List TaskSubtask
    raised = update_by (has_id s.id) (with_parent none s.order) rows

outdent_found-IsNested :
    (o : Option TaskSubtask) (rows : List TaskSubtask)
    → IsNested rows
    → IsNested (outdent_found o rows).1
unfolding outdent_found
outdent_found-IsNested none rows u = u
outdent_found-IsNested (some s) rows u = by_parent s.parent
  where
    by_parent :
        (q : Option ℕ)
        → IsNested
            (elim q as (λ x. Answer × List TaskSubtask) [
              | none ↦ (denied, rows)
              | some p ↦ outdent_from p s rows
            ]).1
    by_parent none = u
    by_parent (some p) = outdent_from-IsNested p s rows u

pub outdent_subtask-IsNested :
    (m : Bool) (pk : ℕ) (rows : List TaskSubtask)
    → IsNested rows
    → IsNested (outdent_subtask m pk rows).1
unfolding outdent_subtask
outdent_subtask-IsNested m pk rows u =
    if-IsNested m _ _ (λ h. outdent_found-IsNested (find_subtask pk rows) rows u) (λ h. u)

-- What a check of every item says of one that is found.
every-find_item :
    (q : Item → Bool) (k : ℕ) (is : List Item) (i : Item)
    → every q is ≡ true
    → find_item k is ≡ some i
    → (q i ≡ true) × (i.id ≡ k)
unfolding every find_item
every-find_item q k [] i h e = ground arith
every-find_item q k (j ∷ is) i h e = ground (arith, every-find_item q k is i)

found_id :
    (k : ℕ) (is : List Item) (rows : List TaskSubtask) (i : Item)
    → every (λ j. exists_by (has_id j.id) rows) is ≡ true
    → find_item k is ≡ some i
    → exists_by (has_id k) rows ≡ true
found_id k is rows i h e =
    let f = every-find_item (λ j. exists_by (has_id j.id) rows) k is i h e in
    subst (λ n. exists_by (has_id n) rows ≡ true) f.1 f.0

root_at-placed_by :
    (p : ℕ) (is : List Item) (j : Item) (rows : List TaskSubtask)
    → find_item p is ≡ some j
    → is_some j.parent ≡ false
    → exists_by (has_id p) rows ≡ true
    → root_at p (map (placed_by is) rows) ≡ true
unfolding placed_by
root_at-placed_by p is j [] e n h = ground arith
root_at-placed_by p is j (s ∷ rows) e n h = elim (Bool-cases (s.id == p)) [
  | inl it ↦ ground (arith, ap (λ k. find_item k is) (eq_of s.id p it))
  | inr other ↦ ground (arith, root_at-placed_by p is j rows e n)
]

-- The parent that an item asks for is not nested after the items took effect.
is_under-placed_by :
    (is : List Item) (i : Item) (rows : List TaskSubtask)
    → every (λ j. exists_by (has_id j.id) rows) is ≡ true
    → fits_item is i ≡ true
    → is_under i.parent (map (placed_by is) rows) ≡ true
unfolding fits_item
is_under-placed_by is i rows h f = by_parent i.parent refl
  where
    by_parent : (o : Option ℕ) → i.parent ≡ o → is_under o (map (placed_by is) rows) ≡ true
    by_parent none e = refl
    by_parent (some p) e = elim (Option-cases (find_item p is)) [
      | inl absent ↦ ground (arith, absent, ap is_top absent)
      | inr found ↦
          root_at-placed_by p is found.0 rows found.1 (ground (arith, found.1, ap is_top found.1))
            (found_id p is rows found.0 h found.1)
    ]

absent_item : (k : ℕ) (is : List Item) → find_item k is ≡ none → exists_by (names_item k) is ≡ false
unfolding find_item
absent_item k [] e = refl
absent_item k (i ∷ is) e = ground (arith, absent_item k is)

AllUnder-placed_by :
    (is : List Item) (rows ss : List TaskSubtask)
    → every (λ j. exists_by (has_id j.id) rows) is ≡ true
    → every (fits_item is) is ≡ true
    → every (λ s. exists_by (names_item s.id) is) ss ≡ true
    → AllUnder (map (placed_by is) rows) (map (placed_by is) ss)
unfolding every placed_by
AllUnder-placed_by is rows [] h f e = tt
AllUnder-placed_by is rows (s ∷ ss) h f e = elim (Option-cases (find_item s.id is)) [
  | inl absent ↦ ground (arith, absent_item s.id is absent)
  | inr found ↦ (
    ap (λ o. is_under (place_item o s).parent (map (placed_by is) rows)) found.1
        ∙ is_under-placed_by is found.0 rows h
            (every-find_item (fits_item is) s.id is found.0 f found.1).0,
    AllUnder-placed_by is rows ss h f (ground arith),
  )
]

same_ids-every :
    (is : List Item) (rows : List TaskSubtask)
    → same_ids is rows ≡ true
    → (every (λ j. exists_by (has_id j.id) rows) is ≡ true)
      × (every (λ s. exists_by (names_item s.id) is) rows ≡ true)
unfolding same_ids
same_ids-every is rows h = (ground arith, ground arith)

reorder_items-IsNested :
    (is : List Item) (rows : List TaskSubtask) → IsNested rows → IsNested (reorder_items is rows).1
unfolding reorder_items
reorder_items-IsNested is rows u =
    if-IsNested (not (same_ids is rows)) _ _ (λ h. u)
      (λ ids.
        if-IsNested (not (every (fits_item is) is)) _ _ (λ h. u)
          (λ fits.
            if-IsNested (not (every (is_ranged is) is)) _ _ (λ h. u)
              (λ h.
                let same = same_ids-every is rows (ground arith) in
                AllUnder-placed_by is rows rows same.0 (ground arith) same.1)))

pub reorder_subtasks-IsNested :
    (m : Bool) (is : Option (List Item)) (rows : List TaskSubtask)
    → IsNested rows
    → IsNested (reorder_subtasks m is rows).1
unfolding reorder_subtasks
reorder_subtasks-IsNested m none rows u = u
reorder_subtasks-IsNested m (some is) rows u =
    if-IsNested m _ _ (λ h. reorder_items-IsNested is rows u) (λ h. u)
