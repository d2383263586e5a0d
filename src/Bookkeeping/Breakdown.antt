-- ===== src/Bookkeeping/Breakdown.antt =====
-- `category_breakdown` of bookkeeping/services.py: the report of categories by assets. A dict is a
-- list of pairs in the order of insertion.
pub mod Groups
pub mod Pivot
pub mod Agreement
use wikikracja.Common.{
  sort_by, ℕ, Bool, true, false, not, ◌&&◌, Option, none, some, List, [], ◌∷◌, ◌==◌, if◌then◌else◌,
  refers, same_ref, is_some, exists_by, filter_by, map,
}
use wikikracja.Common.Int.{ℤ, pos, negsuc, ◌+ℤ◌, ◌-ℤ◌}
use wikikracja.Common.Texts.{Text, codes}
use wikikracja.Bookkeeping.Model.{Direction, Entity, Category, Transaction, text_ltb, default_first}
use wikikracja.Bookkeeping.Balances.{add_amount, sql_sum, or_zero, allows, is_incoming}

-- A row of the query that groups by category, entity and type, with the amounts it adds up.
pub record Group : Type 0 where
  pub category : Option ℕ
  pub entity : ℕ
  pub incoming : Bool
  pub amounts : List ℤ

pub same_bool : Bool → Bool → Bool
same_bool true b = b
same_bool false b = not b

unfoldable pub in_group : Transaction → Group → Bool
unfolding same_bool
in_group t g =
    same_ref g.category t.category && (g.entity == t.entity && same_bool g.incoming (is_incoming t))

-- The groups with one transaction more.
unfoldable pub add_to_group : Transaction → List Group → List Group
unfolding in_group
add_to_group t [] =
    record {
      category = t.category;
      entity = t.entity;
      incoming = is_incoming t;
      amounts = add_amount t.amount [];
    }
    ∷ []
add_to_group t (g ∷ gs) =
    if in_group t g
    then record g { amounts = add_amount t.amount g.amounts } ∷ gs
    else g ∷ add_to_group t gs

-- `values('category', 'entity', 'type').annotate(total=Sum('amount'))`
unfoldable pub grouped : List Transaction → List Group
unfolding add_to_group
grouped [] = []
grouped (t ∷ ts) = add_to_group t (grouped ts)

-- A value of `net`, under its key of a category and an entity.
pub record Cell : Type 0 where
  pub category : Option ℕ
  pub entity : ℕ
  pub value : ℤ

-- `sign * (row['total'] or Decimal('0'))`
abbrev pub signed : (List ℤ → ℤ) → Group → ℤ
signed total g =
    if g.incoming
    then or_zero (sql_sum total g.amounts)
    else pos 0 -ℤ or_zero (sql_sum total g.amounts)

-- `net[key] = net.get(key, Decimal('0')) + value`
unfoldable pub add_net : Option ℕ → ℕ → ℤ → List Cell → List Cell
add_net c e v [] = record { category = c; entity = e; value = v } ∷ []
add_net c e v (x ∷ xs) =
    if same_ref x.category c && x.entity == e
    then record x { value = x.value +ℤ v } ∷ xs
    else x ∷ add_net c e v xs

unfoldable pub net_from : (List ℤ → ℤ) → List Cell → List Group → List Cell
unfolding add_net
net_from total net [] = net
net_from total net (g ∷ gs) = net_from total (add_net g.category g.entity (signed total g) net) gs

-- A row of the pivot: `by_asset` is a dict from entities to values.
pub record PivotRow : Type 0 where
  pub category : Option ℕ
  pub category_name : Text
  pub by_asset : List (ℕ × ℤ)

abbrev pub dash : Text
dash = codes "—"

-- `cat_map.get(cat_id, '—')`
unfoldable pub category_name : List Category → Option ℕ → Text
category_name cats none = dash
category_name [] (some k) = dash
category_name (c ∷ cats) (some k) = if c.id == k then c.name else category_name cats (some k)

unfoldable pub put : ℕ → ℤ → List (ℕ × ℤ) → List (ℕ × ℤ)
put k v [] = (k, v) ∷ []
put k v ((j, u) ∷ d) = if j == k then (k, v) ∷ d else (j, u) ∷ put k v d

abbrev pub is_zero : ℤ → Bool
is_zero (pos n) = n == 0
is_zero (negsuc n) = false

-- `if value != 0: row['by_asset'][asset_id] = value`
abbrev pub put_nonzero : ℕ → ℤ → List (ℕ × ℤ) → List (ℕ × ℤ)
put_nonzero k v d = if is_zero v then d else put k v d

-- One round of the loop over `net`, with `setdefault`.
unfoldable pub place : List Category → Cell → List PivotRow → List PivotRow
unfolding category_name put
place cats x [] =
    record {
      category = x.category;
      category_name = category_name cats x.category;
      by_asset = put_nonzero x.entity x.value [];
    }
    ∷ []
place cats x (r ∷ rs) =
    if same_ref r.category x.category
    then record r { by_asset = put_nonzero x.entity x.value r.by_asset } ∷ rs
    else r ∷ place cats x rs

unfoldable pub place_all : List Category → List PivotRow → List Cell → List PivotRow
unfolding place
place_all cats rows [] = rows
place_all cats rows (x ∷ xs) = place_all cats (place cats x rows) xs

abbrev pub has_cells : PivotRow → Bool
has_cells r = exists_by (λ c. true) r.by_asset

abbrev pub name_first : PivotRow → PivotRow → Bool
name_first a b = text_ltb a.category_name b.category_name

-- `asset_totals[k] = asset_totals.get(k, Decimal('0')) + value`
unfoldable pub add_total : ℕ → ℤ → List (ℕ × ℤ) → List (ℕ × ℤ)
add_total k v [] = (k, v) ∷ []
add_total k v ((j, u) ∷ d) = if j == k then (k, u +ℤ v) ∷ d else (j, u) ∷ add_total k v d

unfoldable pub add_cells : List (ℕ × ℤ) → List (ℕ × ℤ) → List (ℕ × ℤ)
unfolding add_total
add_cells totals [] = totals
add_cells totals ((k, v) ∷ cs) = add_cells (add_total k v totals) cs

unfoldable pub add_rows : List (ℕ × ℤ) → List PivotRow → List (ℕ × ℤ)
unfolding add_cells
add_rows totals [] = totals
add_rows totals (r ∷ rs) = add_rows (add_cells totals r.by_asset) rs

unfoldable pub has_key : ℕ → List (ℕ × ℤ) → Bool
has_key k d = exists_by (λ e. e.0 == k) d

-- `used_entity_ids`, as a test.
abbrev pub is_used : List Group → Entity → Bool
is_used gs e = exists_by (λ g. g.entity == e.pk) gs

pub record Report : Type 0 where
  pub pivot_rows : List PivotRow
  pub asset_columns : List Entity
  pub asset_totals : List (ℕ × ℤ)

unfoldable pub net_of : (List ℤ → ℤ) → List Group → List Cell
unfolding net_from
net_of total gs = net_from total [] gs

unfoldable pub pivot : List Category → List Cell → List PivotRow
unfolding place_all sort_by text_ltb
pivot cats net = sort_by name_first (filter_by has_cells (place_all cats [] net))

unfoldable pub columns : List Entity → List Group → List Entity
unfolding sort_by
columns entities gs = sort_by default_first (filter_by (λ e. e.financial && is_used gs e) entities)

abbrev pub report_of : List Entity → List Group → List PivotRow → Report
unfolding columns add_rows has_key
report_of entities gs rows = record {
  pivot_rows = rows;
  asset_columns = filter_by (λ e. has_key e.pk (add_rows [] rows)) (columns entities gs);
  asset_totals = add_rows [] rows;
}

abbrev pub of_year : Option ℕ → List Transaction → List Transaction
of_year year ts = filter_by (λ t. allows year t.year) ts

-- `category_breakdown(year)` over the tables of categories, entities and transactions.
unfoldable pub category_breakdown :
    (List ℤ → ℤ) → Option ℕ → List Category → List Entity → List Transaction → Report
unfolding grouped net_of pivot
category_breakdown total year cats entities ts =
    report_of entities (grouped (of_year year ts))
      (pivot cats (net_of total (grouped (of_year year ts))))
