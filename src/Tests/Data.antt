-- ===== src/Tests/Data.antt =====
-- The rows that the runs of the models start from.
use wikikracja.Common.{ℕ, Bool, true, false, none, some, [], ◌∷◌, List}
use wikikracja.Common.Int.{pos}
use wikikracja.Settings.Params.{SiteParameters}
use wikikracja.Voting.Model.{
  Decyzja, Db, Moment, Ballot, Status, Glos, referendum_label, buffer_ack,
}
use wikikracja.Voting.World.{World, Redis, op}
use wikikracja.Citizens.Model.{User, Uzytkownik}
use wikikracja.Tasks.Model.{TaskVote, Value}

abbrev pub settings : SiteParameters
settings = record {
  wymaganych_podpisow = 2;
  czas_na_zebranie_podpisow = 365;
  dyskusja = 14;
  czas_trwania_referendum = 7;
  archive_public_chat_room = 90;
  delete_public_chat_room = 365;
  delete_archived_document_after = 365;
  acceptance = 3;
  delete_inactive_user_after = 30;
  group_is_public = true;
  site_name = [];
}

-- Noon of day 100.
abbrev pub moment : Moment
moment = record { now = 8683200; today = 100 }

abbrev pub decision : Status → Decyzja
decision s = record {
  id = 5;
  author = some 1;
  title = none;
  tresc = none;
  kara = none;
  uzasadnienie = none;
  znosi = none;
  path = some (referendum_label ∷ []);
  ile_osob_podpisalo = pos 1;
  data_zebrania_wymaganej_liczby_podpisow = none;
  data_powstania = some 60;
  data_ostatniej_modyfikacji = some 5184000;
  data_zebrania_podpisow = some 70;
  data_referendum_start = some 90;
  data_referendum_stop = some 103;
  data_odrzucenia = none;
  za = 0;
  przeciw = 0;
  status = s;
  referendum_restart_count = 0;
  proposed_parameters = none;
  proposed_brand_mark = none;
}

abbrev pub yes_vote : Ballot
yes_vote = record { code = 11; vote = true }

abbrev pub no_vote : Ballot
no_vote = record { code = 12; vote = false }

-- User 1 has signed decision 5, and users 2, 3 and 4 have voted.
abbrev pub tables : Status → List ℕ → Db
tables s voters = record {
  decyzje = decision s ∷ [];
  podpisy = record { projekt = some 5; podpis_uzytkownika = some 1 } ∷ [];
  glosy = glosy_of voters;
  codes = [];
  effects =
      record { decision = 5; kind = buffer_ack; attempts = 0; failed = false; applied_at = none }
      ∷ [];
  wersje = [];
  arguments = [];
  next_id = 6;
}
  where
    glosy_of : List ℕ → List Glos
    glosy_of [] = []
    glosy_of (u ∷ us) = record { projekt = 5; kto = some u } ∷ glosy_of us

-- A vote claimed by a run that failed, one that is queued, and one from before operation ids.
abbrev pub buffer : Redis
buffer = record {
  online = true;
  pending = λ _. (op 7, yes_vote) ∷ [];
  legacy = λ _. no_vote ∷ [];
  claimed = λ _. (op 6, yes_vote) ∷ [];
}

abbrev pub world : Status → List ℕ → World
world s voters = record { db = tables s voters; redis = buffer; signals = [] }

abbrev pub user : ℕ → Bool → User
user k active = record {
  id = k;
  email = [];
  is_active = active;
  date_joined = k;
  last_login = none;
}

abbrev pub profile : ℕ → Uzytkownik
profile k = record { id = k; uid = some k; reputation = some (pos 1); data_przyjecia = none }

abbrev pub task_vote : ℕ → ℕ → TaskVote
task_vote k at = record { id = k; user = k; value = Value.up; updated_at = at }
