-- ===== src/Tests/Ledger.antt =====
-- Runs of the bookkeeping.
use wikikracja.Common.{
  arith, ltb, if◌then◌else◌, ◌<◌, ◌/◌, ◌*◌, ◌≡◌, refl, true, false, none, some, List, [], ◌∷◌, ◌⊎◌,
  ok, err, value_error,
}
use wikikracja.Common.Int.{ℤ, pos, negsuc, pos_part, ◌+ℤ◌, ◌-ℤ◌}
use wikikracja.Common.Texts.{codes}
use wikikracja.Bookkeeping.Model.{Direction, Entity, Category, Transaction, save_transaction}
use wikikracja.Bookkeeping.Balances.{asset_balances, selected}
use wikikracja.Bookkeeping.Balances.Shown.{
  shown, is_asset, accounts_of, post, shown-asset_balances, save_transaction-post,
}
use wikikracja.Bookkeeping.Sums.{sum_ℤ, weight, digits_limit, IsExact}
use wikikracja.Bookkeeping.Breakdown.{category_breakdown}
use wikikracja.Bookkeeping.Breakdown.Agreement.{total_of, category_breakdown-asset_balances}

abbrev pln : Entity
pln = record { pk = 1; financial = true; is_default = true; code = codes "PLN" }

abbrev btc : Entity
btc = record { pk = 2; financial = true; is_default = false; code = codes "BTC" }

abbrev drill : Entity
drill = record { pk = 3; financial = false; is_default = false; code = [] }

abbrev entities : List Entity
entities = drill ∷ btc ∷ pln ∷ []

abbrev fees : List Category
fees = record { id = 5; name = codes "Fees" } ∷ []

abbrev fee : Transaction
fee = record {
  direction = Direction.incoming;
  year = some 2026;
  entity = 1;
  category = some 5;
  partner = none;
  amount = some (pos 1000);
}

abbrev rent : Transaction
rent = record {
  direction = Direction.outgoing;
  year = some 2026;
  entity = 1;
  category = none;
  partner = some 7;
  amount = some (pos 1500);
}

abbrev gift : Transaction
gift = record {
  direction = Direction.incoming;
  year = some 2025;
  entity = 2;
  category = none;
  partner = none;
  amount = some (pos 3);
}

abbrev ledger : List Transaction
ledger = fee ∷ rent ∷ gift ∷ fee ∷ []

-- Sums with more than fifteen digits lose the last one.
abbrev rounded_sum : List ℤ → ℤ
rounded_sum xs =
    if ltb (pos_part (sum_ℤ xs)) digits_limit then sum_ℤ xs else pos (pos_part (sum_ℤ xs) / 10 * 10)

sum_weight : (xs : List ℤ) → weight xs < digits_limit → sum_ℤ xs ≡ pos (weight xs)
unfolding ◌+ℤ◌
sum_weight [] h = refl
sum_weight (pos n ∷ xs) h = ground (arith, sum_weight xs (omega (arith, h)))
sum_weight (negsuc n ∷ xs) h = ground (arith, h)

rounded_sum-IsExact : IsExact rounded_sum
rounded_sum-IsExact xs h = ground (arith, sum_weight xs h)

shown-asset_balances_example :
    shown 1 (asset_balances rounded_sum (some 2026) none none (some pln) entities ledger) ≡ pos 500
unfolding selected ◌+ℤ◌ ◌-ℤ◌
shown-asset_balances_example =
    shown-asset_balances rounded_sum (some 2026) none none (some pln) entities ledger 1
      rounded_sum-IsExact (omega arith)

category_breakdown-asset_balances_example :
    total_of 1 (category_breakdown rounded_sum (some 2026) fees entities ledger).asset_totals
    ≡ shown 1 (asset_balances rounded_sum (some 2026) none none none entities ledger)
category_breakdown-asset_balances_example =
    category_breakdown-asset_balances rounded_sum (some 2026) fees entities ledger 1
      rounded_sum-IsExact (omega arith) refl

save_transaction-post_example :
    ((saved : List Transaction) × (save_transaction entities gift ledger ≡ ok saved)
      × (accounts_of rounded_sum entities saved 2
          ≡ post gift (accounts_of rounded_sum entities ledger) 2))
    ⊎ ((save_transaction entities gift ledger ≡ err value_error) × (is_asset entities 2 ≡ false))
save_transaction-post_example =
    save_transaction-post rounded_sum entities gift ledger 2 rounded_sum-IsExact (omega arith)
