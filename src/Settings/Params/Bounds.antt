-- ===== src/Settings/Params/Bounds.antt =====
-- The bounds of the parameters while an approved proposal is applied (site_settings/params.py).
use wikikracja.Common.{
  ℕ, ◌≤◌, ◌≡◌, refl, some, [], ◌∷◌, Result, ok, err, arith, ◌⊎◌, inr, ◌>>=◌, type_error,
  value_error,
}
use wikikracja.Common.Int.{ℤ, pos, pos_part}
use wikikracja.Settings.Values.{Value, Name, Proposed, int, bool, str, null}
use wikikracja.Settings.Params.{
  SiteParameters, ParamSpec, int_kind, coerce, coerce_int, clamp, clamp_int, column, apply_item,
  apply_items,
}

-- The bounds of `PARAM_SPECS`.
pub record InBounds (sp : SiteParameters) : Type 0 where
  pub podpisow : (2 ≤ sp.wymaganych_podpisow) × (sp.wymaganych_podpisow ≤ 20)
  pub zebranie : (1 ≤ sp.czas_na_zebranie_podpisow) × (sp.czas_na_zebranie_podpisow ≤ 3650)
  pub dyskusja : (1 ≤ sp.dyskusja) × (sp.dyskusja ≤ 365)
  pub referendum : (1 ≤ sp.czas_trwania_referendum) × (sp.czas_trwania_referendum ≤ 365)
  pub archive : (1 ≤ sp.archive_public_chat_room) × (sp.archive_public_chat_room ≤ 3650)
  pub delete : (1 ≤ sp.delete_public_chat_room) × (sp.delete_public_chat_room ≤ 3650)
  pub documents :
      (1 ≤ sp.delete_archived_document_after) × (sp.delete_archived_document_after ≤ 3650)
  pub acceptance : (1 ≤ sp.acceptance) × (sp.acceptance ≤ 100)
  pub inactive : (1 ≤ sp.delete_inactive_user_after) × (sp.delete_inactive_user_after ≤ 3650)

-- A call that ended well keeps the bounds, and one that raised met a value that is no number.
abbrev pub Keeps : Result SiteParameters → Type 0
Keeps (ok sp) = InBounds sp
Keeps (err e) = (e ≡ value_error) ⊎ (e ≡ type_error)

Numeric : Result ℤ → Type 0
Numeric (ok z) = Unit
Numeric (err e) = (e ≡ value_error) ⊎ (e ≡ type_error)

coerce_int-Numeric : (v : Value) → Numeric (coerce_int v)
unfolding coerce_int Numeric
coerce_int-Numeric (int z) = tt
coerce_int-Numeric (bool b) = tt
coerce_int-Numeric (str s) = ground arith
coerce_int-Numeric null = inr refl

-- Between two bounds a clamped number lies within them.
clamp_int_within :
    (lo hi : ℕ) (z : ℤ)
    → lo ≤ hi
    → (n : ℕ) × (clamp_int (some (pos lo)) (some (pos hi)) z ≡ pos n) × (lo ≤ n) × (n ≤ hi)
unfolding clamp_int
clamp_int_within lo hi z h = (
  pos_part (clamp_int (some (pos lo)) (some (pos hi)) z),
  ground arith,
  ground arith,
  ground arith,
)

abbrev ranged : ℕ → ℕ → ParamSpec
ranged lo hi = record { kind = int_kind; min_value = some (pos lo); max_value = some (pos hi) }

int_column-Keeps :
    (lo hi : ℕ) (f : ℕ → SiteParameters) (r : Result ℤ)
    → lo ≤ hi
    → Numeric r
    → ((n : ℕ) → lo ≤ n → n ≤ hi → InBounds (f n))
    → Keeps ((r >>= λ z. ok (int z)) >>= λ c. column f (clamp (ranged lo hi) c))
unfolding column clamp Numeric
int_column-Keeps lo hi f (err e) le num keep = num
int_column-Keeps lo hi f (ok z) le num keep =
    let (n, e, l, u) = clamp_int_within lo hi z le in rw e (keep n l u)

apply_item-Keeps :
    (name : Name) (v : Value) (sp : SiteParameters) → InBounds sp → Keeps (apply_item name v sp)
unfolding apply_item clamp coerce
apply_item-Keeps Name.wymaganych_podpisow v sp h =
    int_column-Keeps 2 20 _ (coerce_int v) (omega arith) (coerce_int-Numeric v)
      (λ n l u. ground arith)
apply_item-Keeps Name.czas_na_zebranie_podpisow v sp h =
    int_column-Keeps 1 3650 _ (coerce_int v) (omega arith) (coerce_int-Numeric v)
      (λ n l u. ground arith)
apply_item-Keeps Name.dyskusja v sp h =
    int_column-Keeps 1 365 _ (coerce_int v) (omega arith) (coerce_int-Numeric v)
      (λ n l u. ground arith)
apply_item-Keeps Name.czas_trwania_referendum v sp h =
    int_column-Keeps 1 365 _ (coerce_int v) (omega arith) (coerce_int-Numeric v)
      (λ n l u. ground arith)
apply_item-Keeps Name.archive_public_chat_room v sp h =
    int_column-Keeps 1 3650 _ (coerce_int v) (omega arith) (coerce_int-Numeric v)
      (λ n l u. ground arith)
apply_item-Keeps Name.delete_public_chat_room v sp h =
    int_column-Keeps 1 3650 _ (coerce_int v) (omega arith) (coerce_int-Numeric v)
      (λ n l u. ground arith)
apply_item-Keeps Name.delete_archived_document_after v sp h =
    int_column-Keeps 1 3650 _ (coerce_int v) (omega arith) (coerce_int-Numeric v)
      (λ n l u. ground arith)
apply_item-Keeps Name.acceptance v sp h =
    int_column-Keeps 1 100 _ (coerce_int v) (omega arith) (coerce_int-Numeric v)
      (λ n l u. ground arith)
apply_item-Keeps Name.delete_inactive_user_after v sp h =
    int_column-Keeps 1 3650 _ (coerce_int v) (omega arith) (coerce_int-Numeric v)
      (λ n l u. ground arith)
apply_item-Keeps Name.group_is_public v sp h = ground arith
apply_item-Keeps Name.site_name v sp h = ground arith
apply_item-Keeps (Name.other_name k) v sp h = h

Keeps-bind :
    (r : Result SiteParameters) (f : SiteParameters → Result SiteParameters)
    → Keeps r
    → ((sp : SiteParameters) → InBounds sp → Keeps (f sp))
    → Keeps (r >>= f)
Keeps-bind (ok sp) f k g = g sp k
Keeps-bind (err e) f k g = k

-- Whatever a proposal holds, applying it to parameters within their bounds either leaves all of
-- them within their bounds, or raises because a value is no number.
pub apply_items-Keeps :
    (p : Proposed) (sp : SiteParameters) → InBounds sp → Keeps (apply_items p sp)
unfolding apply_items
apply_items-Keeps [] sp h = h
apply_items-Keeps ((name, v) ∷ rest) sp h =
    Keeps-bind (apply_item name v sp) (apply_items rest) (apply_item-Keeps name v sp h)
      (apply_items-Keeps rest)
