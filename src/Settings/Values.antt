-- ===== src/Settings/Values.antt =====
-- The JSON values that a referendum may propose for the parameters of site_settings/params.py, and
-- the names of those parameters.
use wikikracja.Common.{Bool, List}
use wikikracja.Common.Int.{ℤ}
use wikikracja.Common.Texts.{Text}

pub data Value : Type 0 where
  int : ℤ → Value
  bool : Bool → Value
  str : Text → Value
  null : Value

-- The fields of `SiteParameters` that `PARAM_SPECS` lists; a proposal may hold any other key.
pub data Name : Type 0 where
  wymaganych_podpisow czas_na_zebranie_podpisow dyskusja czas_trwania_referendum : Name
  archive_public_chat_room delete_public_chat_room delete_archived_document_after : Name
  acceptance delete_inactive_user_after group_is_public site_name : Name
  other_name : Text → Name

abbrev pub Proposed : Type 0
Proposed = List (Name × Value)
