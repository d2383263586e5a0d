-- ===== src/Settings/Params.antt =====
-- site_settings/params.py: the parameters that a referendum may change, how an approved proposal
-- changes the values of a `SiteParameters` row, and the row of `django_site`.
pub mod Bounds
use wikikracja.Common.{
  ℕ, zero, suc, Bool, true, false, not, ◌&&◌, ◌||◌, Option, none, some, List, [], ◌∷◌, Result, ok,
  err, ◌>>=◌, or_raise, type_error, value_error, integrity_error, if◌then◌else◌, is_some,
}
use wikikracja.Common.Int.{ℤ, pos, negsuc, ltb_ℤ}
use wikikracja.Common.Texts.{Text, codes, text_eq, lower, strip, parse_int, int_text}
use wikikracja.Settings.Values.{Value, Name, Proposed, int, bool, str, null}
use mathlib.Core.List.{map}

pub record SiteParameters : Type 0 where
  pub wymaganych_podpisow : ℕ
  pub czas_na_zebranie_podpisow : ℕ
  pub dyskusja : ℕ
  pub czas_trwania_referendum : ℕ
  pub archive_public_chat_room : ℕ
  pub delete_public_chat_room : ℕ
  pub delete_archived_document_after : ℕ
  pub acceptance : ℕ
  pub delete_inactive_user_after : ℕ
  pub group_is_public : Bool
  pub site_name : Text

pub data Kind : Type 0 where
  int_kind bool_kind str_kind : Kind

pub record ParamSpec : Type 0 where
  pub kind : Kind
  pub min_value : Option ℤ
  pub max_value : Option ℤ

abbrev int_spec : ℕ → ℕ → Option ParamSpec
int_spec lo hi =
    some (record { kind = int_kind; min_value = some (pos lo); max_value = some (pos hi) })

abbrev other_spec : Kind → Option ParamSpec
other_spec k = some (record { kind = k; min_value = none; max_value = none })

-- `SPECS_BY_NAME.get(name)`
pub specs_by_name : Name → Option ParamSpec
specs_by_name Name.wymaganych_podpisow = int_spec 2 20
specs_by_name Name.czas_na_zebranie_podpisow = int_spec 1 3650
specs_by_name Name.dyskusja = int_spec 1 365
specs_by_name Name.czas_trwania_referendum = int_spec 1 365
specs_by_name Name.archive_public_chat_room = int_spec 1 3650
specs_by_name Name.delete_public_chat_room = int_spec 1 3650
specs_by_name Name.delete_archived_document_after = int_spec 1 3650
specs_by_name Name.acceptance = int_spec 1 100
specs_by_name Name.delete_inactive_user_after = int_spec 1 3650
specs_by_name Name.group_is_public = other_spec bool_kind
specs_by_name Name.site_name = other_spec str_kind
specs_by_name (Name.other_name key) = none

-- The texts that count as true.
abbrev true_texts : List Text
true_texts = codes "1" ∷ codes "true" ∷ codes "t" ∷ codes "yes" ∷ codes "y" ∷ codes "on" ∷ []

one_of : List Text → Text → Bool
one_of [] s = false
one_of (t ∷ ts) s = text_eq t s || one_of ts s

pub coerce_int : Value → Result ℤ
coerce_int (int z) = ok z
coerce_int (bool b) = ok (pos (if b then 1 else 0))
coerce_int (str s) = or_raise (parse_int s) value_error
coerce_int null = err type_error

coerce_bool : Value → Bool
unfolding one_of
coerce_bool (int z) = elim z [ pos n ↦ elim n [ zero ↦ false | suc _ ↦ true ] | negsuc _ ↦ true ]
coerce_bool (bool b) = b
coerce_bool (str s) = one_of true_texts (map lower (strip s))
coerce_bool null = false

coerce_str : Value → Text
coerce_str (int z) = int_text z
coerce_str (bool b) = if b then codes "True" else codes "False"
coerce_str (str s) = s
coerce_str null = []

pub coerce : Kind → Value → Result Value
unfolding coerce_int coerce_bool coerce_str
coerce int_kind v = do z ← coerce_int v; ok (int z)
coerce bool_kind v = ok (bool (coerce_bool v))
coerce str_kind v = ok (str (coerce_str v))

below : Option ℤ → ℤ → Bool
below none z = false
below (some lo) z = ltb_ℤ z lo

above : Option ℤ → ℤ → Bool
above none z = false
above (some hi) z = ltb_ℤ hi z

or_else : Option ℤ → ℤ → ℤ
or_else none z = z
or_else (some lo) z = lo

pub clamp_int : Option ℤ → Option ℤ → ℤ → ℤ
unfolding below above or_else
clamp_int lo hi z = if below lo z then or_else lo z else if above hi z then or_else hi z else z

pub clamp : ParamSpec → Value → Value
unfolding clamp_int
clamp spec (int z) = elim spec.kind [
  | int_kind ↦ int (clamp_int spec.min_value spec.max_value z)
  | _ ↦ int z
]
clamp spec v = v

-- A `PositiveIntegerField` takes no negative number.
column : (ℕ → SiteParameters) → Value → Result SiteParameters
column f (int (pos n)) = ok (f n)
column f (int (negsuc n)) = err integrity_error
column f v = err type_error

flag_column : (Bool → SiteParameters) → Value → Result SiteParameters
flag_column f (bool b) = ok (f b)
flag_column f v = err type_error

text_column : (Text → SiteParameters) → Value → Result SiteParameters
text_column f (str s) = ok (f s)
text_column f v = err type_error

-- `setattr(sp, name, value)`, with what `save()` would refuse.
set_attr : Name → Value → SiteParameters → Result SiteParameters
unfolding column flag_column text_column
set_attr Name.wymaganych_podpisow v sp = column (λ n. record sp { wymaganych_podpisow = n }) v
set_attr Name.czas_na_zebranie_podpisow v sp =
    column (λ n. record sp { czas_na_zebranie_podpisow = n }) v
set_attr Name.dyskusja v sp = column (λ n. record sp { dyskusja = n }) v
set_attr Name.czas_trwania_referendum v sp =
    column (λ n. record sp { czas_trwania_referendum = n }) v
set_attr Name.archive_public_chat_room v sp =
    column (λ n. record sp { archive_public_chat_room = n }) v
set_attr Name.delete_public_chat_room v sp =
    column (λ n. record sp { delete_public_chat_room = n }) v
set_attr Name.delete_archived_document_after v sp =
    column (λ n. record sp { delete_archived_document_after = n }) v
set_attr Name.acceptance v sp = column (λ n. record sp { acceptance = n }) v
set_attr Name.delete_inactive_user_after v sp =
    column (λ n. record sp { delete_inactive_user_after = n }) v
set_attr Name.group_is_public v sp = flag_column (λ b. record sp { group_is_public = b }) v
set_attr Name.site_name v sp = text_column (λ s. record sp { site_name = s }) v
set_attr (Name.other_name key) v sp = ok sp

-- One round of the loop over `proposed.items()`.
pub apply_item : Name → Value → SiteParameters → Result SiteParameters
unfolding set_attr specs_by_name
apply_item name v sp = elim (specs_by_name name) [
  | none ↦ ok sp
  | some spec ↦ do c ← coerce spec.kind v; set_attr name (clamp spec c) sp
]

pub apply_items : Proposed → SiteParameters → Result SiteParameters
unfolding apply_item
apply_items [] sp = ok sp
apply_items ((name, v) ∷ rest) sp = do sp' ← apply_item name v sp; apply_items rest sp'

pub record Site : Type 0 where
  pub domain : Text
  pub name : Text

abbrev is_empty : Text → Bool
is_empty [] = true
is_empty (c ∷ cs) = false

-- `_sync_django_site(sp)` with `settings.SITE_DOMAIN`, on the row with id 1, if there is one. The
-- name is never empty where the domain is not.
pub sync_django_site : Text → SiteParameters → Option Site → Option Site
sync_django_site domain sp old =
    if is_empty domain
    then old
    else some
        (record { domain = domain; name = if is_empty sp.site_name then domain else sp.site_name })

pub names_site : Proposed → Bool
names_site [] = false
names_site ((Name.site_name, v) ∷ rest) = true
names_site (_ ∷ rest) = names_site rest
