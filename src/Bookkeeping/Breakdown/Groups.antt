-- ===== src/Bookkeeping/Breakdown/Groups.antt =====
-- The columns of the report of `category_breakdown` (bookkeeping/services.py), followed through the
-- groups, the cells and the rows of the pivot, and held against `asset_balances`.
use wikikracja.Common.{
  ℕ, ◌+◌, ◌<◌, ◌∙◌, ◌≡◌, refl, sym, Option, List, [], ◌∷◌, ◌==◌, if◌then◌else◌, arith,
}
use wikikracja.Common.Int.{
  ℤ, pos, ◌+ℤ◌, ◌-ℤ◌, +ℤ_zero, zero_+ℤ, +ℤ_assoc, +ℤ_comm, +ℤ_swap, difference_second,
}
use wikikracja.Bookkeeping.Model.{Transaction}
use wikikracja.Bookkeeping.Balances.{or_zero, add_amount}
use wikikracja.Bookkeeping.Sums.{
  sum_at, posted, net_at, sum_ℤ, weight, weight_of, digits_limit, IsExact, IsSmall,
  weight-add_amount, sum_ℤ-add_amount, or_zero-sql_sum,
}
use wikikracja.Bookkeeping.Breakdown.{
  Group, Cell, same_bool, in_group, add_to_group, grouped, signed, add_net, net_from,
}

abbrev pub groups_at : (List ℤ → ℤ) → ℕ → List Group → ℤ
groups_at total k gs = sum_at (λ g. g.entity == k) (signed total) gs

-- The exact value of a group.
abbrev exact_signed : Group → ℤ
exact_signed g = if g.incoming then sum_ℤ g.amounts else pos 0 -ℤ sum_ℤ g.amounts

abbrev exact_groups_at : ℕ → List Group → ℤ
exact_groups_at k gs = sum_at (λ g. g.entity == k) exact_signed gs

abbrev weight_in : List Group → ℕ
weight_in [] = 0
weight_in (g ∷ gs) = weight g.amounts + weight_in gs

-- What one entity with an amount adds to the column of an entity.
abbrev pub gain : ℕ → ℕ → ℤ → ℤ
gain k e v = if e == k then v else pos 0

add_to_group_lem :
    (k : ℕ) (t : Transaction) (gs : List Group)
    → exact_groups_at k (add_to_group t gs) ≡ gain k t.entity (posted t) +ℤ exact_groups_at k gs
unfolding add_to_group in_group same_bool
add_to_group_lem k t [] = ground (
  arith,
  sum_ℤ-add_amount t.amount [],
  +ℤ_zero (or_zero t.amount),
  +ℤ_zero (posted t),
  zero_+ℤ (pos 0),
)
add_to_group_lem k t (g ∷ gs) = ground (
  arith,
  add_to_group_lem k t gs,
  sum_ℤ-add_amount t.amount g.amounts,
  difference_second (or_zero t.amount) (pos 0) (sum_ℤ g.amounts),
  +ℤ_assoc (posted t) (exact_signed g) (exact_groups_at k gs),
  +ℤ_swap (posted t) (exact_signed g) (exact_groups_at k gs),
  zero_+ℤ (exact_groups_at k gs),
  zero_+ℤ (exact_signed g +ℤ exact_groups_at k gs),
)

weight_in-add_to_group :
    (t : Transaction) (gs : List Group)
    → weight_in (add_to_group t gs) ≡ weight (add_amount t.amount []) + weight_in gs
unfolding add_to_group
weight_in-add_to_group t [] = refl
weight_in-add_to_group t (g ∷ gs) =
    ground (arith, weight_in-add_to_group t gs, weight-add_amount t.amount g.amounts)

weight_in-grouped : (ts : List Transaction) → weight_in (grouped ts) ≡ weight_of ts
unfolding grouped
weight_in-grouped [] = refl
weight_in-grouped (t ∷ ts) =
    omega (arith, weight_in-grouped ts, weight_in-add_to_group t (grouped ts))

exact_groups_at-grouped :
    (k : ℕ) (ts : List Transaction) → exact_groups_at k (grouped ts) ≡ net_at k ts
unfolding grouped
exact_groups_at-grouped k [] = refl
exact_groups_at-grouped k (t ∷ ts) = ground (
  arith,
  add_to_group_lem k t (grouped ts),
  exact_groups_at-grouped k ts,
  +ℤ_zero (posted t),
  zero_+ℤ (net_at k ts),
)

groups_at_exact :
    (total : List ℤ → ℤ) (k : ℕ) (gs : List Group)
    → IsExact total
    → weight_in gs < digits_limit
    → groups_at total k gs ≡ exact_groups_at k gs
groups_at_exact total k [] exact w = refl
groups_at_exact total k (g ∷ gs) exact w = ground (
  arith,
  groups_at_exact total k gs exact (omega (arith, w)),
  or_zero-sql_sum total g.amounts exact (omega (arith, w)),
)

pub groups_at-grouped :
    (total : List ℤ → ℤ) (k : ℕ) (ts : List Transaction)
    → IsExact total
    → IsSmall ts
    → groups_at total k (grouped ts) ≡ net_at k ts
groups_at-grouped total k ts exact w =
    groups_at_exact total k (grouped ts) exact (omega (arith, w, weight_in-grouped ts))
    ∙ exact_groups_at-grouped k ts

abbrev pub cells_at : ℕ → List Cell → ℤ
cells_at k xs = sum_at (λ x. x.entity == k) (λ x. x.value) xs

add_net_lem :
    (k : ℕ) (c : Option ℕ) (e : ℕ) (v : ℤ) (xs : List Cell)
    → cells_at k (add_net c e v xs) ≡ gain k e v +ℤ cells_at k xs
unfolding add_net
add_net_lem k c e v [] = ground (arith, +ℤ_zero v, zero_+ℤ (pos 0))
add_net_lem k c e v (x ∷ xs) = ground (
  arith,
  add_net_lem k c e v xs,
  +ℤ_comm x.value v,
  +ℤ_assoc v x.value (cells_at k xs),
  +ℤ_swap x.value v (cells_at k xs),
  zero_+ℤ (cells_at k xs),
  zero_+ℤ (x.value +ℤ cells_at k xs),
)

pub net_from_lem :
    (total : List ℤ → ℤ) (k : ℕ) (net : List Cell) (gs : List Group)
    → cells_at k (net_from total net gs) ≡ cells_at k net +ℤ groups_at total k gs
unfolding net_from
net_from_lem total k net [] = sym (+ℤ_zero (cells_at k net))
net_from_lem total k net (g ∷ gs) = ground (
  arith,
  net_from_lem total k (add_net g.category g.entity (signed total g) net) gs,
  add_net_lem k g.category g.entity (signed total g) net,
  +ℤ_assoc (signed total g) (cells_at k net) (groups_at total k gs),
  +ℤ_swap (signed total g) (cells_at k net) (groups_at total k gs),
  zero_+ℤ (cells_at k net),
)
