-- ===== src/Voting/Editing.antt =====
-- Proposals and arguments (glosowania/views.py): adding, editing and deleting them. Whether a form
-- is valid, and the cleaned fields, come from Django.
pub mod History
use wikikracja.Common.{
  ℕ, suc, ◌+◌, Bool, true, false, not, ◌&&◌, ◌||◌, Option, none, some, List, [], ◌∷◌, ◌++◌, ◌==◌,
  if◌then◌else◌, refers, is_some, count_by, reject_by, update_by, exists_by,
}
use wikikracja.Common.Int.{ℤ, pos}
use wikikracja.Common.Texts.{Text}
use wikikracja.Voting.Model.{
  Decyzja, DecyzjaWersja, Argument, ArgumentType, Db, Moment, Podpis, proposition,
  proposition_label, find_decyzja, write_row,
}
use wikikracja.Voting.Nightly.{is_filled}
use wikikracja.Voting.Tables.{same_status, saved, stamped, voting_has_ended}

-- The cleaned data of `DecyzjaForm`.
pub record Form : Type 0 where
  pub title : Option Text
  pub tresc : Option Text
  pub kara : Option Text
  pub uzasadnienie : Option Text
  pub znosi : Option Text

pub data Answer : Type 0 where
  to_list to_index to_details to_parameters_edit errors blank not_found ended not_author done :
      Answer

-- A request: a GET, a POST whose form is not valid, or a POST with cleaned data.
pub data Request (A : Type 0) : Type 0 where
  get : Request A
  invalid : Request A
  post : A → Request A

abbrev pub new_decyzja : Moment → ℕ → ℕ → Form → Decyzja
new_decyzja t pk user f = record {
  id = pk;
  author = some user;
  title = f.title;
  tresc = f.tresc;
  kara = f.kara;
  uzasadnienie = f.uzasadnienie;
  znosi = f.znosi;
  path = some (proposition_label ∷ []);
  ile_osob_podpisalo = pos 0;
  data_zebrania_wymaganej_liczby_podpisow = none;
  data_powstania = some t.today;
  data_ostatniej_modyfikacji = some t.now;
  data_zebrania_podpisow = none;
  data_referendum_start = none;
  data_referendum_stop = none;
  data_odrzucenia = none;
  za = 0;
  przeciw = 0;
  status = proposition;
  referendum_restart_count = 0;
  proposed_parameters = none;
  proposed_brand_mark = none;
}

-- `dodaj`
pub add_proposal : Moment → ℕ → Request Form → Db → Answer × Db
add_proposal t user get db = (blank, db)
add_proposal t user invalid db = (errors, db)
add_proposal t user (post f) db = (
  to_list,
  record db {
    decyzje = db.decyzje ++ new_decyzja t db.next_id user f ∷ [];
    next_id = db.next_id + 1;
  },
)

abbrev pub version_of : ℕ → DecyzjaWersja → Bool
version_of d v = v.decyzja == d

-- The version that keeps the columns before an edit.
abbrev pub snapshot : ℕ → Decyzja → Db → DecyzjaWersja
snapshot user i db = record {
  decyzja = i.id;
  modified_by = some user;
  version_number = count_by (version_of i.id) db.wersje + 1;
  title = i.title;
  tresc = i.tresc;
  kara = i.kara;
  uzasadnienie = i.uzasadnienie;
  znosi = i.znosi;
}

abbrev pub edited : Form → Decyzja → Decyzja
edited f i = record i {
  title = f.title;
  tresc = f.tresc;
  kara = f.kara;
  uzasadnienie = f.uzasadnienie;
  znosi = f.znosi;
}

abbrev pub proposes_parameters : Decyzja → Bool
proposes_parameters i = is_some i.proposed_parameters || is_filled i.proposed_brand_mark

edit_open : Moment → ℕ → Request Form → Decyzja → Db → Answer × Db
edit_open t user get i db = (blank, db)
edit_open t user invalid i db = (errors, db)
edit_open t user (post f) i db =
    (to_list, saved t (edited f i) (record db { wersje = db.wersje ++ snapshot user i db ∷ [] }))

-- Who may not edit, and where the request is sent instead.
edit_refusal : ℕ → Decyzja → Option Answer
edit_refusal user i =
    if refers i.author user
    then if same_status i.status proposition
      then if proposes_parameters i then some to_parameters_edit else none
      else some to_details
    else some to_details

edit_found : Moment → ℕ → Request Form → Decyzja → Db → Answer × Db
unfolding edit_open edit_refusal
edit_found t user r i db = elim (edit_refusal user i) [
  | some a ↦ (a, db)
  | none ↦ edit_open t user r i db
]

-- `edit`
pub edit : Moment → ℕ → ℕ → Request Form → Db → Answer × Db
unfolding edit_found
edit t user pk r db = elim (find_decyzja pk db.decyzje) [
  | none ↦ (to_index, db)
  | some i ↦ edit_found t user r i db
]

-- What a deleted decision leaves: signatures lose their reference, other rows go with it.
abbrev pub without : ℕ → Db → Db
without d db = record db {
  decyzje = reject_by (λ i. i.id == d) db.decyzje;
  podpisy = update_by (λ s. refers s.projekt d) (λ s. record s { projekt = none }) db.podpisy;
  glosy = reject_by (λ g. g.projekt == d) db.glosy;
  codes = reject_by (λ c. c.project == d) db.codes;
  effects = reject_by (λ e. e.decision == d) db.effects;
  wersje = reject_by (version_of d) db.wersje;
  arguments = reject_by (λ a. a.decyzja == d) db.arguments;
}

-- `delete_proposal`; `confirmed` tells that the request is a POST.
pub delete_proposal : ℕ → ℕ → Bool → Db → Answer × Db
delete_proposal user pk confirmed db = elim (find_decyzja pk db.decyzje) [
  | none ↦ (not_found, db)
  | some i ↦
      if refers i.author user && same_status i.status proposition && confirmed
      then (to_list, without pk db)
      else (to_details, db)
]

-- The cleaned data of `ArgumentForm`.
pub record ArgumentForm : Type 0 where
  pub argument_type : ArgumentType
  pub content : Text

add_argument_open : ℕ → ℕ → Request ArgumentForm → Db → Answer × Db
add_argument_open user pk get db = (to_details, db)
add_argument_open user pk invalid db = (errors, db)
add_argument_open user pk (post f) db = (
  done,
  record db {
    arguments =
        db.arguments
        ++ record {
          id = db.next_id;
          decyzja = pk;
          author = some user;
          argument_type = f.argument_type;
          content = f.content;
        }
          ∷ [];
    next_id = db.next_id + 1;
  },
)

-- `add_argument`
pub add_argument : ℕ → ℕ → Request ArgumentForm → Db → Answer × Db
unfolding add_argument_open
add_argument user pk r db = elim (find_decyzja pk db.decyzje) [
  | none ↦ (not_found, db)
  | some i ↦ elim (voting_has_ended i) [
    | true ↦ (ended, db)
    | false ↦ add_argument_open user pk r db
  ]
]

abbrev pub find_argument : ℕ → List Argument → Option Argument
find_argument pk [] = none
find_argument pk (a ∷ as') = if a.id == pk then some a else find_argument pk as'

-- The checks that editing and deleting an argument share; the decision of an argument exists.
pub argument_refusal : ℕ → Argument → Db → Option Answer
argument_refusal user a db =
    if refers a.author user
    then elim (find_decyzja a.decyzja db.decyzje) [
      | none ↦ some not_found
      | some i ↦ if voting_has_ended i then some ended else none
    ]
    else some not_author

change_argument : Request ArgumentForm → Argument → Db → Answer × Db
change_argument get a db = (to_details, db)
change_argument invalid a db = (errors, db)
change_argument (post f) a db = (
  done,
  record db {
    arguments =
        update_by (λ b. b.id == a.id)
          (λ b. record b { argument_type = f.argument_type; content = f.content }) db.arguments;
  },
)

-- `edit_argument`
pub edit_argument : ℕ → ℕ → Request ArgumentForm → Db → Answer × Db
unfolding argument_refusal change_argument
edit_argument user pk r db = elim (find_argument pk db.arguments) [
  | none ↦ (not_found, db)
  | some a ↦ elim (argument_refusal user a db) [
    | some answer ↦ (answer, db)
    | none ↦ change_argument r a db
  ]
]

-- `delete_argument`
pub delete_argument : ℕ → ℕ → Bool → Db → Answer × Db
unfolding argument_refusal
delete_argument user pk confirmed db = elim (find_argument pk db.arguments) [
  | none ↦ (not_found, db)
  | some a ↦ elim (argument_refusal user a db) [
    | some answer ↦ (answer, db)
    | none ↦
        if confirmed
        then (done, record db { arguments = reject_by (λ b. b.id == pk) db.arguments })
        else (to_details, db)
  ]
]
