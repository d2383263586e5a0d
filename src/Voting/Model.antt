-- ===== src/Voting/Model.antt =====
-- The tables of glosowania/models.py. Dates are numbers of days, points in time numbers of seconds
-- in UTC; users are their primary keys. `path` holds the labels that the source joins by " -> ".
use wikikracja.Common.{ℕ, ◌/◌, Bool, Option, none, some, List, [], ◌∷◌, ◌==◌, if◌then◌else◌}
use wikikracja.Common.Int.{ℤ}
use wikikracja.Common.Texts.{Text}
use wikikracja.Settings.Values.{Proposed}

pub data Status : Type 0 where
  proposition discussion referendum rejected approved : Status

pub data Label : Type 0 where
  none_text proposition_label signed_label discussion_label referendum_label : Label
  not_enough_signatures_label approved_label rejected_label : Label

pub record Decyzja : Type 0 where
  pub id : ℕ
  pub author : Option ℕ
  pub title : Option Text
  pub tresc : Option Text
  pub kara : Option Text
  pub uzasadnienie : Option Text
  pub znosi : Option Text
  pub path : Option (List Label)
  pub ile_osob_podpisalo : ℤ
  pub data_zebrania_wymaganej_liczby_podpisow : Option ℕ
  pub data_powstania : Option ℕ
  pub data_ostatniej_modyfikacji : Option ℕ
  pub data_zebrania_podpisow : Option ℕ
  pub data_referendum_start : Option ℕ
  pub data_referendum_stop : Option ℕ
  pub data_odrzucenia : Option ℕ
  pub za : ℕ
  pub przeciw : ℕ
  pub status : Status
  pub referendum_restart_count : ℕ
  pub proposed_parameters : Option Proposed
  pub proposed_brand_mark : Option Text

pub data Kind : Type 0 where
  parameters brand_mark buffer_ack : Kind

pub record ReferendumEffect : Type 0 where
  pub decision : ℕ
  pub kind : Kind
  pub attempts : ℕ
  pub failed : Bool
  pub applied_at : Option ℕ

-- `ZebranePodpisy`: both references become NULL when what they name is deleted.
pub record Podpis : Type 0 where
  pub projekt : Option ℕ
  pub podpis_uzytkownika : Option ℕ

-- `KtoJuzGlosowal`
pub record Glos : Type 0 where
  pub projekt : ℕ
  pub kto : Option ℕ

-- A vote and its verification code, as they are queued; codes are only compared.
pub record Ballot : Type 0 where
  pub code : ℕ
  pub vote : Bool

pub record VoteCode : Type 0 where
  pub project : ℕ
  pub ballot : Ballot

pub record DecyzjaWersja : Type 0 where
  pub decyzja : ℕ
  pub modified_by : Option ℕ
  pub version_number : ℕ
  pub title : Option Text
  pub tresc : Option Text
  pub kara : Option Text
  pub uzasadnienie : Option Text
  pub znosi : Option Text

pub data ArgumentType : Type 0 where
  for_it against_it : ArgumentType

pub record Argument : Type 0 where
  pub id : ℕ
  pub decyzja : ℕ
  pub author : Option ℕ
  pub argument_type : ArgumentType
  pub content : Text

pub record Db : Type 0 where
  pub decyzje : List Decyzja
  pub podpisy : List Podpis
  pub glosy : List Glos
  pub codes : List VoteCode
  pub effects : List ReferendumEffect
  pub wersje : List DecyzjaWersja
  pub arguments : List Argument
  pub next_id : ℕ

-- The clock that a request reads: `timezone.now()` and `timezone.localdate()`.
pub record Moment : Type 0 where
  pub now : ℕ
  pub today : ℕ

-- `.date()` of a stored point in time, which is a date of UTC.
abbrev pub utc_date : ℕ → ℕ
utc_date seconds = seconds / 86400

-- `Decyzja.objects.get(pk=pk)`
abbrev pub find_decyzja : ℕ → List Decyzja → Option Decyzja
find_decyzja pk [] = none
find_decyzja pk (d ∷ ds) = if pk == d.id then some d else find_decyzja pk ds

-- `save()` of a row that was read: all its columns are written back.
abbrev pub write_row : Decyzja → List Decyzja → List Decyzja
write_row r [] = []
write_row r (d ∷ ds) = if r.id == d.id then r ∷ ds else d ∷ write_row r ds
