-- ===== src/Bookkeeping/Model.antt =====
-- bookkeeping/models.py and the part of resources/models.py that it refers to: the transactions of the
-- community and the financial assets they are in. An amount is a whole number of 10^-8, the eight
-- decimal places of the column.
use wikikracja.Common.{
  ℕ, Bool, true, false, ◌&&◌, Option, List, [], ◌∷◌, ◌==◌, ltb, if◌then◌else◌, exists_by, Result,
  ok, err, value_error,
}
use wikikracja.Common.Int.{ℤ}
use wikikracja.Common.Texts.{Text}

pub data Direction : Type 0 where
  incoming outgoing : Direction

-- `financial` tells whether `entity_type` is `FINANCIAL_ASSET`.
pub record Entity : Type 0 where
  pub pk : ℕ
  pub financial : Bool
  pub is_default : Bool
  pub code : Text

pub record Category : Type 0 where
  pub id : ℕ
  pub name : Text

-- The year is that of `payment_received_date`, which may be absent, as the amount may be.
pub record Transaction : Type 0 where
  pub direction : Direction
  pub year : Option ℕ
  pub entity : ℕ
  pub category : Option ℕ
  pub partner : Option ℕ
  pub amount : Option ℤ

abbrev pub financial_at : ℕ → Entity → Bool
financial_at k e = e.pk == k && e.financial

-- `Transaction.save` of a new row: the entity has to be a financial asset.
unfoldable pub save_transaction :
    List Entity → Transaction → List Transaction → Result (List Transaction)
save_transaction entities t ts =
    if exists_by (financial_at t.entity) entities then ok (t ∷ ts) else err value_error

-- Python's order of strings, by code points.
unfoldable pub text_ltb : Text → Text → Bool
text_ltb [] [] = false
text_ltb [] (d ∷ ds) = true
text_ltb (c ∷ cs) [] = false
text_ltb (c ∷ cs) (d ∷ ds) = if c == d then text_ltb cs ds else ltb c d

-- The key `(not is_default, code)`.
abbrev pub default_first : Entity → Entity → Bool
default_first a b =
    if a.is_default
    then (if b.is_default then text_ltb a.code b.code else true)
    else (if b.is_default then false else text_ltb a.code b.code)
