-- ===== src/Bookkeeping/Breakdown/Agreement.antt =====
-- The totals of the report of `category_breakdown` and the balances of `asset_balances`
-- (bookkeeping/services.py).
use wikikracja.Common.{
  ℕ, ◌≡◌, refl, sym, ap, ◌∙◌, true, Option, none, List, [], ◌∷◌, ◌==◌, if◌then◌else◌, filter_by,
  arith,
}
use wikikracja.Common.Int.{ℤ, pos, ◌+ℤ◌, +ℤ_zero, zero_+ℤ, +ℤ_assoc, +ℤ_comm, +ℤ_swap}
use wikikracja.Bookkeeping.Model.{Category, Entity, Transaction}
use wikikracja.Bookkeeping.Balances.{selected, allows, asset_balances}
use wikikracja.Bookkeeping.Balances.Shown.{shown, is_asset, shown-asset_balances}
use wikikracja.Bookkeeping.Sums.{net_at, IsExact, IsSmall, filter_by-IsSmall}
use wikikracja.Bookkeeping.Breakdown.{
  Group, PivotRow, report_of, grouped, net_of, pivot, add_total, add_cells, add_rows, of_year,
  category_breakdown,
}
use wikikracja.Bookkeeping.Breakdown.Groups.{gain, groups_at, groups_at-grouped, net_from_lem}
use wikikracja.Bookkeeping.Breakdown.Pivot.{row_at, column, column-pivot}

-- `asset_totals.get(k, 0)`
unfoldable pub total_of : ℕ → List (ℕ × ℤ) → ℤ
total_of k [] = pos 0
total_of k ((j, v) ∷ d) = if j == k then v else total_of k d

add_total_lem :
    (k e : ℕ) (v : ℤ) (d : List (ℕ × ℤ)) → total_of k (add_total e v d) ≡ gain k e v +ℤ total_of k d
unfolding total_of add_total
add_total_lem k e v [] = ground (arith, +ℤ_zero v, zero_+ℤ (pos 0))
add_total_lem k e v ((j, u) ∷ d) =
    ground (arith, add_total_lem k e v d, +ℤ_comm u v, zero_+ℤ u, zero_+ℤ (total_of k d))

add_cells_lem :
    (k : ℕ) (d cs : List (ℕ × ℤ)) → total_of k (add_cells d cs) ≡ row_at k cs +ℤ total_of k d
unfolding add_cells
add_cells_lem k d [] = sym (zero_+ℤ (total_of k d))
add_cells_lem k d ((e, v) ∷ cs) = ground (
  arith,
  add_cells_lem k (add_total e v d) cs,
  add_total_lem k e v d,
  +ℤ_assoc v (row_at k cs) (total_of k d),
  +ℤ_swap v (row_at k cs) (total_of k d),
  zero_+ℤ (total_of k d),
)

add_rows_lem :
    (k : ℕ) (d : List (ℕ × ℤ)) (rows : List PivotRow)
    → total_of k (add_rows d rows) ≡ column k rows +ℤ total_of k d
unfolding add_rows
add_rows_lem k d [] = sym (zero_+ℤ (total_of k d))
add_rows_lem k d (r ∷ rows) = ground (
  arith,
  add_rows_lem k (add_cells d r.by_asset) rows,
  add_cells_lem k d r.by_asset,
  +ℤ_assoc (row_at k r.by_asset) (column k rows) (total_of k d),
  +ℤ_swap (row_at k r.by_asset) (column k rows) (total_of k d),
)

total_of-net_at :
    (total : List ℤ → ℤ) (year : Option ℕ) (cats : List Category) (es : List Entity)
    (ts : List Transaction) (k : ℕ)
    → IsExact total
    → IsSmall ts
    → total_of k (category_breakdown total year cats es ts).asset_totals
      ≡ net_at k (of_year year ts)
unfolding category_breakdown total_of net_of report_of add_rows
total_of-net_at total year cats es ts k exact w =
    add_rows_lem k [] (pivot cats (net_of total gs))
    ∙ +ℤ_zero (column k (pivot cats (net_of total gs)))
    ∙ column-pivot total k cats gs
    ∙ net_from_lem total k [] gs
    ∙ zero_+ℤ (groups_at total k gs)
    ∙ groups_at-grouped total k (of_year year ts) exact
        (filter_by-IsSmall (λ t. allows year t.year) ts w)
  where
    gs : List Group
    gs = grouped (of_year year ts)

filter_by-of_year :
    (year : Option ℕ) (ts : List Transaction)
    → filter_by (selected year none none) ts ≡ of_year year ts
unfolding selected
filter_by-of_year year [] = refl
filter_by-of_year year (t ∷ ts) = ground (arith, filter_by-of_year year ts)

-- The report and the balances agree, when the database adds up amounts that are not negative exactly
-- as long as their sum has fifteen digits at most, and the amounts of the table are so: for every
-- financial asset of the table, the total that the report of a year, or of all years, has for its
-- column is the balance that `asset_balances` shows for it with the same year, an absent total and an
-- absent balance being 0.
pub category_breakdown-asset_balances :
    (total : List ℤ → ℤ) (year : Option ℕ) (cats : List Category) (es : List Entity)
    (ts : List Transaction) (k : ℕ)
    → IsExact total
    → IsSmall ts
    → is_asset es k ≡ true
    → total_of k (category_breakdown total year cats es ts).asset_totals
      ≡ shown k (asset_balances total year none none none es ts)
category_breakdown-asset_balances total year cats es ts k exact w h = ground (
  arith,
  total_of-net_at total year cats es ts k exact w,
  shown-asset_balances total year none none none es ts k exact w,
  ap (net_at k) (filter_by-of_year year ts),
)
