-- ===== src/Bookkeeping/Balances.antt =====
-- `asset_balances` of bookkeeping/services.py. How the database adds amounts up is not the program's
-- own code: `total` gives what `Sum` returns for a list of amounts that is not empty.
pub mod Shown
use wikikracja.Common.{
  sort_by, ℕ, ◌+◌, Bool, true, false, ◌&&◌, Option, none, some, List, [], ◌∷◌, ◌==◌, if◌then◌else◌,
  refers, length, filter_by, reject_by,
}
use wikikracja.Common.Int.{ℤ, pos, ◌-ℤ◌}
use wikikracja.Bookkeeping.Model.{Direction, Entity, Transaction, financial_at, default_first}

pub record Balance : Type 0 where
  pub asset : Entity
  pub income : ℤ
  pub expenses : ℤ
  pub balance : ℤ
  pub txn_count : ℕ

-- A row of the query that groups by entity.
pub record Row : Type 0 where
  pub entity : ℕ
  pub income : Option ℤ
  pub expenses : Option ℤ
  pub txn_count : ℕ

-- A filter that is absent lets everything through.
abbrev pub allows : Option ℕ → Option ℕ → Bool
allows none value = true
allows (some k) value = refers value k

unfoldable pub selected : Option ℕ → Option ℕ → Option ℕ → Transaction → Bool
selected year category partner t =
    allows year t.year && (allows category t.category && allows partner t.partner)

abbrev pub is_incoming : Transaction → Bool
is_incoming t = elim t.direction [ Direction.incoming ↦ true | Direction.outgoing ↦ false ]

abbrev pub is_outgoing : Transaction → Bool
is_outgoing t = elim t.direction [ Direction.incoming ↦ false | Direction.outgoing ↦ true ]

-- SQL's sum leaves NULL out, and is NULL when nothing is left.
abbrev pub sql_sum : (List ℤ → ℤ) → List ℤ → Option ℤ
sql_sum total [] = none
sql_sum total (a ∷ xs) = some (total (a ∷ xs))

abbrev pub add_amount : Option ℤ → List ℤ → List ℤ
add_amount none xs = xs
add_amount (some a) xs = a ∷ xs

unfoldable pub amounts_if : (Transaction → Bool) → List Transaction → List ℤ
amounts_if p [] = []
amounts_if p (t ∷ ts) = if p t then add_amount t.amount (amounts_if p ts) else amounts_if p ts

-- `Sum('amount', filter=...)`
unfoldable pub sum_if : (List ℤ → ℤ) → (Transaction → Bool) → List Transaction → Option ℤ
unfolding amounts_if
sum_if total p ts = sql_sum total (amounts_if p ts)

-- `x or Decimal('0')`
abbrev pub or_zero : Option ℤ → ℤ
or_zero none = pos 0
or_zero (some a) = a

abbrev pub of_entity : ℕ → Transaction → Bool
of_entity k t = t.entity == k

unfoldable pub row_of : (List ℤ → ℤ) → ℕ → List Transaction → Row
unfolding sum_if
row_of total k ts = record {
  entity = k;
  income = sum_if total is_incoming (filter_by (of_entity k) ts);
  expenses = sum_if total is_outgoing (filter_by (of_entity k) ts);
  txn_count = length (filter_by (of_entity k) ts);
}

-- The entities of the transactions, each once.
unfoldable pub entities_of : List Transaction → List ℕ
entities_of [] = []
entities_of (t ∷ ts) = t.entity ∷ reject_by (λ k. k == t.entity) (entities_of ts)

-- `values('entity').annotate(...)`
unfoldable pub rows_for : (List ℤ → ℤ) → List ℕ → List Transaction → List Row
unfolding row_of
rows_for total [] ts = []
rows_for total (k ∷ ks) ts = row_of total k ts ∷ rows_for total ks ts

unfoldable pub aggregated : (List ℤ → ℤ) → List Transaction → List Row
unfolding rows_for entities_of
aggregated total ts = rows_for total (entities_of ts) ts

-- `entity_objs.get(entity_id)`
unfoldable pub entity_obj : List Entity → ℕ → Option Entity
entity_obj [] k = none
entity_obj (e ∷ es) k = if financial_at k e then some e else entity_obj es k

unfoldable pub balance_of : Entity → Row → Balance
balance_of e r = record {
  asset = e;
  income = or_zero r.income;
  expenses = or_zero r.expenses;
  balance = or_zero r.income -ℤ or_zero r.expenses;
  txn_count = r.txn_count;
}

-- One round of the loop; a row whose entity is not found is left out.
unfoldable pub append_balance : Option Entity → Row → List Balance → List Balance
unfolding balance_of
append_balance none r rest = rest
append_balance (some e) r rest = balance_of e r ∷ rest

unfoldable pub balances_of : List Entity → List Row → List Balance
unfolding append_balance entity_obj
balances_of entities [] = []
balances_of entities (r ∷ rs) =
    append_balance (entity_obj entities r.entity) r (balances_of entities rs)

abbrev pub asset_first : Balance → Balance → Bool
asset_first a b = default_first a.asset b.asset

unfoldable pub sorted_balances : (List ℤ → ℤ) → List Entity → List Transaction → List Balance
unfolding sort_by balances_of aggregated
sorted_balances total entities ts = sort_by asset_first (balances_of entities (aggregated total ts))

-- `asset_balances(year, category, partner, asset)` over the tables of entities and transactions.
unfoldable pub asset_balances :
    (List ℤ → ℤ)
    → Option ℕ
    → Option ℕ
    → Option ℕ
    → Option Entity
    → List Entity
    → List Transaction
    → List Balance
unfolding selected sorted_balances
asset_balances total year category partner none entities ts =
    sorted_balances total entities (filter_by (selected year category partner) ts)
asset_balances total year category partner (some asset) entities ts =
    if asset.financial
    then sorted_balances total entities
        (filter_by (of_entity asset.pk) (filter_by (selected year category partner) ts))
    else []
