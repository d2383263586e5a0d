-- ===== src/Bookkeeping/Breakdown/Pivot.antt =====
-- The rows of the pivot of `category_breakdown` (bookkeeping/services.py) and the sums of their columns.
use wikikracja.Common.{
  ℕ, ◌≡◌, refl, sym, ◌∙◌, ◌&&◌, Bool, true, false, Option, List, [], ◌∷◌, ◌==◌, same_ref, exists_by,
  filter_by, Bool-cases, ◌⊎◌, inl, inr, arith,
}
use wikikracja.Common.Int.{ℤ, pos, negsuc, ◌+ℤ◌, +ℤ_zero, zero_+ℤ, +ℤ_assoc, +ℤ_swap}
use wikikracja.Bookkeeping.Model.{Category}
use wikikracja.Bookkeeping.Sums.{sum_at, sum_at-sort_by}
use wikikracja.Bookkeeping.Breakdown.{
  Group, Cell, PivotRow, signed, add_net, net_from, net_of, put, put_nonzero, is_zero, place,
  place_all, has_cells, name_first, pivot, has_key,
}
use wikikracja.Bookkeeping.Breakdown.Groups.{gain, cells_at}

-- The value of a row in the column of an entity.
abbrev pub row_at : ℕ → List (ℕ × ℤ) → ℤ
row_at k d = sum_at (λ c. c.0 == k) (λ c. c.1) d

abbrev pub column : ℕ → List PivotRow → ℤ
column k rows = sum_at (λ r. true) (λ r. row_at k r.by_asset) rows

abbrev has_cell : Option ℕ → ℕ → PivotRow → Bool
has_cell c e r = same_ref r.category c && has_key e r.by_asset

-- A cell whose place is free.
abbrev IsFresh : List PivotRow → Cell → Type 0
IsFresh rows x = exists_by (has_cell x.category x.entity) rows ≡ false

abbrev same_place : Cell → Cell → Bool
same_place x y = same_ref y.category x.category && y.entity == x.entity

abbrev IsDistinct : List Cell → Type 0
IsDistinct [] = Unit
IsDistinct (x ∷ xs) = (exists_by (same_place x) xs ≡ false) × IsDistinct xs

same_ref_left : (a b c : Option ℕ) → same_ref a b ≡ true → same_ref a c ≡ same_ref b c
same_ref_left a b c h = ground arith

row_at-put :
    (k e : ℕ) (v : ℤ) (d : List (ℕ × ℤ))
    → has_key e d ≡ false
    → row_at k (put e v d) ≡ gain k e v +ℤ row_at k d
unfolding put has_key
row_at-put k e v [] h = ground (arith, +ℤ_zero v, zero_+ℤ (pos 0))
row_at-put k e v ((j, u) ∷ d) h =
    ground (arith, row_at-put k e v d, +ℤ_swap u (gain k e v) (row_at k d))

is_zero_lem : (v : ℤ) → is_zero v ≡ true → v ≡ pos 0
is_zero_lem (pos n) h = ground arith
is_zero_lem (negsuc n) h = ground arith

row_at-put_nonzero :
    (k e : ℕ) (v : ℤ) (d : List (ℕ × ℤ))
    → has_key e d ≡ false
    → row_at k (put_nonzero e v d) ≡ gain k e v +ℤ row_at k d
row_at-put_nonzero k e v d h = elim (Bool-cases (is_zero v)) [
  | inl z ↦ ground (arith, is_zero_lem v z, zero_+ℤ (row_at k d))
  | inr n ↦ ground (arith, row_at-put k e v d h)
]

has_key-put :
    (j e : ℕ) (v : ℤ) (d : List (ℕ × ℤ))
    → has_key j d ≡ false
    → (e == j) ≡ false
    → has_key j (put e v d) ≡ false
unfolding put has_key
has_key-put j e v [] h n = ground arith
has_key-put j e v ((i, u) ∷ d) h n = ground (arith, has_key-put j e v d)

has_key-put_nonzero :
    (j e : ℕ) (v : ℤ) (d : List (ℕ × ℤ))
    → has_key j d ≡ false
    → (e == j) ≡ false
    → has_key j (put_nonzero e v d) ≡ false
has_key-put_nonzero j e v d h n = ground (arith, has_key-put j e v d h n)

column-place :
    (k : ℕ) (cats : List Category) (x : Cell) (rows : List PivotRow)
    → IsFresh rows x
    → column k (place cats x rows) ≡ gain k x.entity x.value +ℤ column k rows
unfolding place has_key
column-place k cats x [] h =
    ground (arith, row_at-put_nonzero k x.entity x.value [] refl, +ℤ_zero (gain k x.entity x.value))
column-place k cats x (r ∷ rows) h = ground (
  arith,
  column-place k cats x rows,
  row_at-put_nonzero k x.entity x.value r.by_asset,
  +ℤ_assoc (gain k x.entity x.value) (row_at k r.by_asset) (column k rows),
  +ℤ_swap (row_at k r.by_asset) (gain k x.entity x.value) (column k rows),
)

place-IsFresh :
    (cats : List Category) (x y : Cell) (rows : List PivotRow)
    → IsFresh rows y
    → same_place y x ≡ false
    → IsFresh (place cats x rows) y
unfolding place has_key
place-IsFresh cats x y [] h n =
    ground (arith, has_key-put_nonzero y.entity x.entity x.value [] refl)
place-IsFresh cats x y (r ∷ rows) h n = ground (
  arith,
  place-IsFresh cats x y rows,
  has_key-put_nonzero y.entity x.entity x.value r.by_asset,
  same_ref_left r.category x.category y.category,
)

abbrev AllFresh : List PivotRow → List Cell → Type 0
AllFresh rows [] = Unit
AllFresh rows (x ∷ xs) = IsFresh rows x × AllFresh rows xs

place-AllFresh :
    (cats : List Category) (x : Cell) (rows : List PivotRow) (xs : List Cell)
    → exists_by (same_place x) xs ≡ false
    → AllFresh rows xs
    → AllFresh (place cats x rows) xs
place-AllFresh cats x rows [] d h = tt
place-AllFresh cats x rows (y ∷ xs) d h = (
  place-IsFresh cats x y rows h.0 (ground arith),
  place-AllFresh cats x rows xs (ground arith) h.1,
)

column-place_all :
    (k : ℕ) (cats : List Category) (rows : List PivotRow) (xs : List Cell)
    → AllFresh rows xs
    → IsDistinct xs
    → column k (place_all cats rows xs) ≡ cells_at k xs +ℤ column k rows
unfolding place_all
column-place_all k cats rows [] f d = sym (zero_+ℤ (column k rows))
column-place_all k cats rows (x ∷ xs) f d = ground (
  arith,
  column-place_all k cats (place cats x rows) xs (place-AllFresh cats x rows xs d.0 f.1) d.1,
  column-place k cats x rows f.0,
  +ℤ_assoc x.value (cells_at k xs) (column k rows),
  +ℤ_swap x.value (cells_at k xs) (column k rows),
  zero_+ℤ (column k rows),
)

all_fresh : (xs : List Cell) → AllFresh [] xs
all_fresh [] = tt
all_fresh (x ∷ xs) = (refl, all_fresh xs)

add_net-fresh :
    (x : Cell) (c : Option ℕ) (e : ℕ) (v : ℤ) (xs : List Cell)
    → exists_by (same_place x) xs ≡ false
    → (same_ref x.category c && x.entity == e) ≡ false
    → exists_by (same_place x) (add_net c e v xs) ≡ false
unfolding add_net
add_net-fresh x c e v [] h n = ground arith
add_net-fresh x c e v (y ∷ xs) h n = ground (arith, add_net-fresh x c e v xs)

-- `net` is a dict: it has one value for a category and an entity.
add_net-IsDistinct :
    (c : Option ℕ) (e : ℕ) (v : ℤ) (xs : List Cell) → IsDistinct xs → IsDistinct (add_net c e v xs)
unfolding add_net
add_net-IsDistinct c e v [] d = (refl, tt)
add_net-IsDistinct c e v (x ∷ xs) d = elim (Bool-cases (same_ref x.category c && x.entity == e)) [
  | inl here ↦ ground arith
  | inr away ↦ ground (arith, add_net-fresh x c e v xs d.0 away, add_net-IsDistinct c e v xs d.1)
]

net_from-IsDistinct :
    (total : List ℤ → ℤ) (net : List Cell) (gs : List Group)
    → IsDistinct net
    → IsDistinct (net_from total net gs)
unfolding net_from
net_from-IsDistinct total net [] d = d
net_from-IsDistinct total net (g ∷ gs) d =
    net_from-IsDistinct total (add_net g.category g.entity (signed total g) net) gs
      (add_net-IsDistinct g.category g.entity (signed total g) net d)

-- A row without cells adds nothing to a column.
column-has_cells :
    (k : ℕ) (rows : List PivotRow) → column k (filter_by has_cells rows) ≡ column k rows
column-has_cells k [] = refl
column-has_cells k (r ∷ rows) = elim (no_cells k r.by_asset) [
  | inl e ↦ ground (arith, column-has_cells k rows, zero_+ℤ (column k rows))
  | inr h ↦ ground (arith, column-has_cells k rows)
]
  where
    no_cells : (k : ℕ) (d : List (ℕ × ℤ)) → (row_at k d ≡ pos 0) ⊎ (exists_by (λ c. true) d ≡ true)
    no_cells k [] = inl refl
    no_cells k (c ∷ d) = inr refl

-- The pivot keeps the sum of every column of `net`.
pub column-pivot :
    (total : List ℤ → ℤ) (k : ℕ) (cats : List Category) (gs : List Group)
    → column k (pivot cats (net_of total gs)) ≡ cells_at k (net_of total gs)
unfolding pivot net_of
column-pivot total k cats gs =
    sum_at-sort_by (λ r. true) (λ r. row_at k r.by_asset) name_first
      (filter_by has_cells (place_all cats [] (net_from total [] gs)))
    ∙ column-has_cells k (place_all cats [] (net_from total [] gs))
    ∙ column-place_all k cats [] (net_from total [] gs) (all_fresh (net_from total [] gs))
        (net_from-IsDistinct total [] gs tt)
    ∙ +ℤ_zero (cells_at k (net_from total [] gs))
