-- ===== src/Bookkeeping/Sums.antt =====
-- Sums of signed amounts over lists, and what sorting and grouping leave of them. What the report and
-- the balances of bookkeeping/services.py have in common.
use wikikracja.Common.{
  insert_by, sort_by, ℕ, ◌+◌, ◌<◌, ◌≤◌, Option, none, some, filter_by, ◌≡◌, refl, sym, ap, ◌∙◌,
  Bool, true, List, [], ◌∷◌, if◌then◌else◌, arith,
}
use wikikracja.Common.Int.{
  ℤ, pos, negsuc, ◌+ℤ◌, ◌-ℤ◌, +ℤ_swap, zero_+ℤ, difference_zero, difference_first,
  difference_second,
}
use wikikracja.Bookkeeping.Model.{Transaction}
use wikikracja.Bookkeeping.Balances.{
  add_amount, amounts_if, sql_sum, sum_if, or_zero, is_incoming, is_outgoing, of_entity,
}

module _ {ℓ} {A : Type ℓ} (p : A → Bool) (v : A → ℤ) where
  abbrev pub sum_at : List A → ℤ
  sum_at [] = pos 0
  sum_at (x ∷ xs) = if p x then v x +ℤ sum_at xs else sum_at xs

  pub sum_at-insert_by :
      (before : A → A → Bool) (x : A) (xs : List A)
      → sum_at (insert_by before x xs) ≡ sum_at (x ∷ xs)
  unfolding insert_by
  sum_at-insert_by before x [] = refl
  sum_at-insert_by before x (y ∷ ys) =
      ground (arith, sum_at-insert_by before x ys, +ℤ_swap (v x) (v y) (sum_at ys))

  pub sum_at-sort_by :
      (before : A → A → Bool) (xs : List A) → sum_at (sort_by before xs) ≡ sum_at xs
  unfolding sort_by
  sum_at-sort_by before [] = refl
  sum_at-sort_by before (x ∷ xs) =
      sum_at-insert_by before x (sort_by before xs)
      ∙ ap (λ s. if p x then v x +ℤ s else s) (sum_at-sort_by before xs)

-- What a transaction adds to the balance of its entity.
abbrev pub posted : Transaction → ℤ
posted t = if is_incoming t then or_zero t.amount else pos 0 -ℤ or_zero t.amount

abbrev pub net_at : ℕ → List Transaction → ℤ
net_at k ts = sum_at (of_entity k) posted ts

-- The exact sum of amounts.
abbrev pub sum_ℤ : List ℤ → ℤ
sum_ℤ [] = pos 0
sum_ℤ (a ∷ xs) = a +ℤ sum_ℤ xs

-- Numbers with fifteen digits are below this.
abbrev pub digits_limit : ℕ
digits_limit = 1000000000000000

-- The sum, or at least the limit when an amount is negative.
abbrev pub cost : ℤ → ℕ
cost (pos n) = n
cost (negsuc n) = digits_limit

abbrev pub weight : List ℤ → ℕ
weight [] = 0
weight (a ∷ xs) = cost a + weight xs

-- The database adds up amounts that are not negative and whose sum has fifteen digits at most without
-- an error.
abbrev pub IsExact : (List ℤ → ℤ) → Type 0
IsExact total = (xs : List ℤ) → weight xs < digits_limit → total xs ≡ sum_ℤ xs

abbrev pub weight_of : List Transaction → ℕ
weight_of [] = 0
weight_of (t ∷ ts) = weight (add_amount t.amount []) + weight_of ts

-- The amounts are not negative and their sum has fifteen digits at most.
abbrev pub IsSmall : List Transaction → Type 0
IsSmall ts = weight_of ts < digits_limit

pub weight-add_amount :
    (a : Option ℤ) (xs : List ℤ) → weight (add_amount a xs) ≡ weight (add_amount a []) + weight xs
weight-add_amount none xs = omega arith
weight-add_amount (some a) xs = omega arith

pub weight_of-filter_by :
    (p : Transaction → Bool) (ts : List Transaction) → weight_of (filter_by p ts) ≤ weight_of ts
weight_of-filter_by p [] = omega arith
weight_of-filter_by p (t ∷ ts) = ground (arith, weight_of-filter_by p ts)

pub filter_by-IsSmall :
    (p : Transaction → Bool) (ts : List Transaction) → IsSmall ts → IsSmall (filter_by p ts)
filter_by-IsSmall p ts h = omega (arith, h, weight_of-filter_by p ts)

weight-amounts_if :
    (p : Transaction → Bool) (ts : List Transaction) → weight (amounts_if p ts) ≤ weight_of ts
unfolding amounts_if
weight-amounts_if p [] = omega arith
weight-amounts_if p (t ∷ ts) =
    ground (arith, weight-amounts_if p ts, weight-add_amount t.amount (amounts_if p ts))

pub sum_ℤ-add_amount :
    (a : Option ℤ) (xs : List ℤ) → sum_ℤ (add_amount a xs) ≡ or_zero a +ℤ sum_ℤ xs
sum_ℤ-add_amount none xs = sym (zero_+ℤ (sum_ℤ xs))
sum_ℤ-add_amount (some a) xs = refl

pub or_zero-sql_sum :
    (total : List ℤ → ℤ) (xs : List ℤ)
    → IsExact total
    → weight xs < digits_limit
    → or_zero (sql_sum total xs) ≡ sum_ℤ xs
or_zero-sql_sum total [] exact h = refl
or_zero-sql_sum total (a ∷ xs) exact h = exact (a ∷ xs) h

-- The part of a list of transactions that one entity has.
abbrev pub rows_at : ℕ → List Transaction → List Transaction
rows_at k ts = filter_by (of_entity k) ts

abbrev exact_if : (Transaction → Bool) → List Transaction → ℤ
exact_if p ts = sum_at p (λ t. or_zero t.amount) ts

sum_ℤ-amounts_if :
    (p : Transaction → Bool) (ts : List Transaction) → sum_ℤ (amounts_if p ts) ≡ exact_if p ts
unfolding amounts_if
sum_ℤ-amounts_if p [] = refl
sum_ℤ-amounts_if p (t ∷ ts) =
    ground (arith, sum_ℤ-amounts_if p ts, sum_ℤ-add_amount t.amount (amounts_if p ts))

or_zero-sum_if :
    (total : List ℤ → ℤ) (p : Transaction → Bool) (ts : List Transaction)
    → IsExact total
    → IsSmall ts
    → or_zero (sum_if total p ts) ≡ exact_if p ts
unfolding sum_if
or_zero-sum_if total p ts exact h =
    or_zero-sql_sum total (amounts_if p ts) exact (omega (arith, h, weight-amounts_if p ts))
    ∙ sum_ℤ-amounts_if p ts

abbrev all_posted : List Transaction → ℤ
all_posted ts = sum_at (λ t. true) posted ts

difference-all_posted :
    (ts : List Transaction) → exact_if is_incoming ts -ℤ exact_if is_outgoing ts ≡ all_posted ts
difference-all_posted [] = difference_zero (pos 0)
difference-all_posted (t ∷ ts) = ground (
  arith,
  difference-all_posted ts,
  difference_first (or_zero t.amount) (exact_if is_incoming ts) (exact_if is_outgoing ts),
  difference_second (or_zero t.amount) (exact_if is_incoming ts) (exact_if is_outgoing ts),
)

all_posted-rows_at : (k : ℕ) (ts : List Transaction) → all_posted (rows_at k ts) ≡ net_at k ts
all_posted-rows_at k [] = refl
all_posted-rows_at k (t ∷ ts) = ground (arith, all_posted-rows_at k ts)

-- Income less expenses of one entity is what its transactions post.
pub difference-net_at :
    (total : List ℤ → ℤ) (k : ℕ) (ts : List Transaction)
    → IsExact total
    → IsSmall ts
    → or_zero (sum_if total is_incoming (rows_at k ts))
        -ℤ or_zero (sum_if total is_outgoing (rows_at k ts))
      ≡ net_at k ts
difference-net_at total k ts exact h =
    let small = filter_by-IsSmall (of_entity k) ts h in
    ap (λ a. a -ℤ or_zero (sum_if total is_outgoing (rows_at k ts)))
      (or_zero-sum_if total is_incoming (rows_at k ts) exact small)
    ∙ ap (λ b. exact_if is_incoming (rows_at k ts) -ℤ b)
        (or_zero-sum_if total is_outgoing (rows_at k ts) exact small)
    ∙ difference-all_posted (rows_at k ts)
    ∙ all_posted-rows_at k ts
