-- ===== src/Voting/Nightly.antt =====
-- The nightly command (glosowania/management/commands/vote.py): what happens to each decision.
-- `shuffle` is what the system's random generator makes of a list; the texts of the messages are left
-- out.
pub mod Tally
use wikikracja.Common.{
  ℕ, zero, suc, ◌+◌, ◌/◌, Bool, true, false, not, ◌&&◌, Option, none, some, List, [], ◌∷◌, ◌++◌,
  map, ok, err, ◌==◌, if◌then◌else◌, ltb, leb, exists_by, count_by, reject_by, filter_by, length,
  type_error, value_error, does_not_exist, Error, Result, or_raise, is_some,
}
use wikikracja.Common.Int.{ℤ, pos, negsuc, ltb_ℤ}
use wikikracja.Common.Texts.{Text, split_nonword, parse_int}
use wikikracja.Settings.Params.{SiteParameters}
use wikikracja.Voting.Model.{
  Status, proposition, discussion, referendum, rejected, approved, Label, none_text, signed_label,
  discussion_label, referendum_label, not_enough_signatures_label, approved_label, rejected_label,
  Decyzja, Ballot, VoteCode, Db, Moment, utc_date, parameters, brand_mark, buffer_ack, Kind,
}
use wikikracja.Voting.World.{
  World, Transition, M, ◌>>=◌, ◌>>◌, pure, raise, lift, gets, atomic, modify_db, queue_signal, when,
  choose, discussion_started, rejected_no_signatures, started, last_day, buffer_restart,
  approved_now, rejected_now,
}
use wikikracja.Voting.Buffer.{claim_pending_votes, clear_pending_votes}
use wikikracja.Voting.Tables.{
  is_author_signed, get_decyzja, save, votes_on, with_effect, same_status,
}

-- `Decyzja.DISCUSSION_FREEZE_PERIOD_DAYS`
abbrev pub freeze_period : ℕ
freeze_period = 2

-- `str(i.path) + " -> " + ...`
abbrev pub str_path : Option (List Label) → List Label
str_path none = none_text ∷ []
str_path (some labels) = labels

-- `i.path + " -> " + ...`, which raises on NULL.
path_plus : Option (List Label) → Label → Result (Option (List Label))
path_plus none label = err type_error
path_plus (some labels) label = ok (some (labels ++ label ∷ []))

-- Whether the proposal was changed too recently to be discussed.
pub is_frozen : Moment → Decyzja → Bool
is_frozen t i = elim i.data_ostatniej_modyfikacji [
  | none ↦ false
  | some changed ↦ ltb t.today (utc_date changed + freeze_period)
]

pub has_signatures : SiteParameters → Decyzja → Bool
has_signatures sp i = not (ltb_ℤ i.ile_osob_podpisalo (pos sp.wymaganych_podpisow))

abbrev pub discussed : SiteParameters → Moment → Decyzja → Decyzja
discussed sp t i = record i {
  status = discussion;
  path = some (str_path i.path ++ signed_label ∷ discussion_label ∷ []);
  data_zebrania_podpisow = some t.today;
  data_referendum_start = some (t.today + sp.dyskusja);
  data_referendum_stop = some (t.today + sp.dyskusja + sp.czas_trwania_referendum);
}

abbrev pub expired : Moment → Decyzja → Decyzja
expired t i = record i {
  status = rejected;
  data_odrzucenia = some t.today;
  path = some (str_path i.path ++ not_enough_signatures_label ∷ []);
}

to_discussion : SiteParameters → Moment → Decyzja → M Unit
to_discussion sp t i = do save t (discussed sp t i); queue_signal discussion_started i.id

-- The deadline for signatures.
check_deadline : SiteParameters → Moment → Decyzja → M Unit
check_deadline sp t i = do
  made ← lift (or_raise i.data_powstania type_error)
  when (leb (made + sp.czas_na_zebranie_podpisow) t.today)
      do save t (expired t i); queue_signal rejected_no_signatures i.id

-- A signed proposal with enough signatures is discussed, or waits out the freeze; any other one is
-- only held against the deadline.
pub process_proposition : SiteParameters → Moment → Decyzja → M Unit
unfolding is_frozen has_signatures to_discussion check_deadline
process_proposition sp t i = do
  own ← gets (λ w. is_author_signed i w.db)
  choose (own && has_signatures sp i) (choose (is_frozen t i) (pure tt) (to_discussion sp t i))
      (check_deadline sp t i)

pub process_discussion : Moment → Decyzja → M Unit
unfolding path_plus
process_discussion t i = do
  start ← lift (or_raise i.data_referendum_start type_error)
  when (leb start t.today) do
    path' ← lift (path_plus i.path referendum_label)
    save t (record i { status = referendum; path = path' })
    queue_signal started i.id

abbrev pub says_yes : Ballot → Bool
says_yes b = b.vote

abbrev pub says_no : Ballot → Bool
says_no b = not b.vote

-- The fields that hold the result.
abbrev pub tallied : List Ballot → Decyzja → Decyzja
tallied ballots i = record i { za = count_by says_yes ballots; przeciw = count_by says_no ballots }

abbrev pub with_codes : ℕ → List Ballot → Db → Db
with_codes d ballots db = record db {
  codes = db.codes ++ map (λ b. record { project = d; ballot = b }) ballots;
}

abbrev pub restarted : SiteParameters → Moment → Decyzja → Decyzja
restarted sp t i = record i {
  data_referendum_start = some t.today;
  data_referendum_stop = some (t.today + sp.czas_trwania_referendum);
  referendum_restart_count = i.referendum_restart_count + 1;
}

-- Votes were lost: the referendum begins anew.
restart : SiteParameters → Moment → Decyzja → M Unit
restart sp t i = do
  clear_pending_votes i.id
  modify_db (λ db. record db { glosy = reject_by (votes_on i.id) db.glosy })
  save t (restarted sp t i)
  queue_signal buffer_restart i.id

lookup_number : ℤ → M Decyzja
lookup_number (pos n) = get_decyzja n
lookup_number (negsuc _) = raise does_not_exist

-- `Decyzja.objects.get(pk=str(z))`, and the rejection of that decision.
abolish_one : Moment → Text → M Unit
unfolding lookup_number
abolish_one t z = do
  number ← lift (or_raise (parse_int z) value_error)
  abolished ← lookup_number number
  save t (record abolished { status = rejected; data_odrzucenia = some t.today })

abolish_all : Moment → List Text → M Unit
unfolding abolish_one
abolish_all t [] = pure tt
abolish_all t (z ∷ zs) = abolish_one t z >> abolish_all t zs

-- `if i.znosi:`
abolished_texts : Option Text → List Text
abolished_texts none = []
abolished_texts (some []) = []
abolished_texts (some (c ∷ cs)) = split_nonword (c ∷ cs)

-- The truth value of a column.
abbrev pub is_filled {ℓ} : {A : Type ℓ} → Option (List A) → Bool
is_filled none = false
is_filled (some []) = false
is_filled (some (x ∷ xs)) = true

approve : Moment → Decyzja → M Unit
unfolding path_plus abolish_all abolished_texts
approve t i = do
  path' ← lift (path_plus i.path approved_label)
  when (is_filled i.proposed_parameters) (modify_db (with_effect i.id parameters))
  when (is_filled i.proposed_brand_mark) (modify_db (with_effect i.id brand_mark))
  abolish_all t (abolished_texts i.znosi)
  save t (record i { status = approved; path = path' })
  queue_signal approved_now i.id

reject : Moment → Decyzja → M Unit
unfolding path_plus
reject t i = do
  path' ← lift (path_plus i.path rejected_label)
  save t (record i { status = rejected; data_odrzucenia = some t.today; path = path' })
  queue_signal rejected_now i.id

module _ (shuffle : List Ballot → List Ballot) where
  -- The result of complete votes.
  pub tally : Moment → Decyzja → List Ballot → M Unit
  unfolding approve reject
  tally t i ballots = do
    modify_db (with_codes i.id (shuffle ballots))
    let counted = tallied (shuffle ballots) i
    choose (ltb counted.przeciw counted.za) (approve t counted) (reject t counted)
    modify_db (with_effect i.id buffer_ack)

  -- A referendum whose last day is over.
  pub close : SiteParameters → Moment → Decyzja → M Unit
  unfolding restart tally
  close sp t i = do
    pending_votes ← claim_pending_votes i.id
    expected_voters ← gets (λ w. count_by (votes_on i.id) w.db.glosy)
    choose (expected_voters == length pending_votes) (tally t i pending_votes) (restart sp t i)

  pub process_referendum : SiteParameters → Moment → Decyzja → M Unit
  unfolding close
  process_referendum sp t i = do
    stop ← lift (or_raise i.data_referendum_stop type_error)
    choose (stop == t.today) (queue_signal last_day i.id) (when (ltb stop t.today) (close sp t i))

  pub process : SiteParameters → Moment → Decyzja → M Unit
  unfolding process_proposition process_discussion process_referendum
  process sp t i = elim i.status [
    | proposition ↦ process_proposition sp t i
    | discussion ↦ process_discussion t i
    | referendum ↦ process_referendum sp t i
    | rejected ↦ pure tt
    | approved ↦ pure tt
  ]

  -- One round of the loop: a transaction whose failure is logged and passed over.
  pub process_one : SiteParameters → Moment → ℕ → World → World
  unfolding process
  process_one sp t pk w = (atomic (do i ← get_decyzja pk; process sp t i) w).1

  pub process_ids : SiteParameters → Moment → List ℕ → World → World
  unfolding process_one
  process_ids sp t [] w = w
  process_ids sp t (pk ∷ pks) w = process_ids sp t pks (process_one sp t pk w)

  abbrev pub is_processed : Decyzja → Bool
  is_processed i = elim i.status [ rejected ↦ false | approved ↦ false | _ ↦ true ]

  -- `zliczaj_wszystko`
  pub count_all : SiteParameters → Moment → World → World
  unfolding process_ids
  count_all sp t w = process_ids sp t (map (λ i. i.id) (filter_by is_processed w.db.decyzje)) w
