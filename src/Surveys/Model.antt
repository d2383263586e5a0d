-- ===== src/Surveys/Model.antt =====
-- A survey with its options and votes (ankiety/models.py), the requests on it (ankiety/views.py) and
-- the options of its form (ankiety/forms.py). The values of a request that are no numbers raise before
-- anything is written, and are left out; users are named by primary keys.
use wikikracja.Common.{
  ℕ, suc, Bool, true, false, not, ◌&&◌, ◌||◌, Option, none, some, List, [], ◌∷◌, ◌++◌, ◌==◌,
  if◌then◌else◌, refers, ltb, leb, length, exists_by, filter_by, reject_by, update_by, map,
}
use wikikracja.Common.Texts.{Text, text_eq, lower}

pub record SurveyOption : Type 0 where
  pub id : ℕ
  pub text : Text
  pub order : ℕ
  pub created_by : Option ℕ

-- A row of the survey; the user is absent when the account is deleted.
pub record SurveyVote : Type 0 where
  pub user : Option ℕ
  pub option : ℕ

pub record Survey : Type 0 where
  pub author : Option ℕ
  pub end_date : ℕ
  pub allow_multiple_choice : Bool
  pub allow_custom_options : Bool
  pub options : List SurveyOption
  pub votes : List SurveyVote

-- `Survey.is_active`
abbrev pub is_active : ℕ → Survey → Bool
is_active now s = leb now s.end_date

abbrev pub has_option : ℕ → SurveyOption → Bool
has_option k o = o.id == k

abbrev pub is_among : List ℕ → ℕ → Bool
is_among ks k = exists_by (λ i. i == k) ks

abbrev pub vote_of : ℕ → SurveyVote → Bool
vote_of user v = refers v.user user

-- `request.POST.get("option")` is the last of the values.
unfoldable pub last_of : List ℕ → Option ℕ
last_of [] = none
last_of (k ∷ []) = some k
last_of (k ∷ j ∷ ks) = last_of (j ∷ ks)

abbrev pub to_list : Option ℕ → List ℕ
to_list none = []
to_list (some k) = k ∷ []

-- The options that a request asks for.
unfoldable pub picked : Bool → List ℕ → Option ℕ → List ℕ
unfolding last_of
picked true values custom = values ++ to_list custom
picked false values none = to_list (last_of values)
picked false values (some k) = k ∷ []

-- `len(option_ids) != len(set(option_ids))`, as no value that comes twice.
unfoldable pub no_repeats : List ℕ → Bool
no_repeats [] = true
no_repeats (k ∷ ks) = not (is_among ks k) && no_repeats ks

abbrev pub without_votes_of : ℕ → Survey → Survey
without_votes_of user s = record s { votes = reject_by (vote_of user) s.votes }

abbrev pub new_votes : ℕ → List SurveyOption → List SurveyVote
new_votes user os = map (λ o. record { user = some user; option = o.id }) os

abbrev pub chosen : List ℕ → Survey → List SurveyOption
chosen ks s = filter_by (λ o. is_among ks o.id) s.options

unfoldable pub cast_picked : ℕ → List ℕ → Survey → Bool × Survey
unfolding no_repeats
cast_picked user [] s = (true, without_votes_of user s)
cast_picked user (k ∷ ks) s =
    if not (no_repeats (k ∷ ks))
    then (false, s)
    else if not (length (chosen (k ∷ ks) s) == length (k ∷ ks))
    then (false, s)
    else (
      true,
      record s { votes = reject_by (vote_of user) s.votes ++ new_votes user (chosen (k ∷ ks) s) },
    )

-- `_cast_vote`: whether the vote was taken, and the survey afterwards.
unfoldable pub cast_vote : ℕ → ℕ → List ℕ → Option ℕ → Survey → Bool × Survey
unfolding cast_picked picked
cast_vote now user values custom s =
    if is_active now s
    then cast_picked user (picked s.allow_multiple_choice values custom) s
    else (false, s)

-- SQLite's `LIKE` takes no notice of the case of ASCII letters.
abbrev pub iexact : Text → SurveyOption → Bool
iexact t o = text_eq (map lower o.text) (map lower t)

abbrev pub later : SurveyOption → SurveyOption → Bool
later a b = ltb b.order a.order || (a.order == b.order && ltb b.id a.id)

-- `order_by("-order", "-id").first()`
unfoldable pub last_option : List SurveyOption → Option SurveyOption
last_option [] = none
last_option (o ∷ os) = elim (last_option os) [
  | none ↦ some o
  | some l ↦ some (if later o l then o else l)
]

abbrev pub order_after : Option SurveyOption → ℕ
order_after none = 0
order_after (some l) = suc l.order

unfoldable pub with_option : ℕ → ℕ → Text → Survey → Survey
unfolding last_option
with_option new_id user text s = record s {
  options =
      s.options
      ++ record {
        id = new_id;
        text = text;
        order = order_after (last_option s.options);
        created_by = some user;
      }
        ∷ [];
}

-- `_create_custom_option`: none when the text is there; the key of the new row is the database's.
unfoldable pub create_custom_option : ℕ → ℕ → Text → Survey → Option Survey
unfolding with_option
create_custom_option new_id user text s =
    if exists_by (iexact text) s.options then none else some (with_option new_id user text s)

-- The survey after a vote in the transaction: a vote that is refused takes the option back.
abbrev pub or_rolled_back : Survey → Bool × Survey → Survey
or_rolled_back before out = if out.0 then out.1 else before

-- `_cast_vote_with_custom_option`; the form is valid when it has a text.
unfoldable pub cast_vote_with_custom_option :
    ℕ → ℕ → List ℕ → ℕ → Option Text → Survey → Bool × Survey
unfolding create_custom_option cast_vote
cast_vote_with_custom_option now user values new_id text s =
    if not (is_active now s) then (true, (cast_vote now user values none s).1) else elim text [
      | none ↦ (false, s)
      | some t ↦ elim (create_custom_option new_id user t s) [
        | none ↦ (true, s)
        | some opened ↦ (true, or_rolled_back s (cast_vote now user values (some new_id) opened))
      ]
    ]

-- `{opt.text: opt for opt in options}[text]`: the last option with the text.
unfoldable pub option_with_text : Text → List SurveyOption → Option SurveyOption
option_with_text t [] = none
option_with_text t (o ∷ os) = elim (option_with_text t os) [
  | some later_one ↦ some later_one
  | none ↦ if text_eq o.text t then some o else none
]

abbrev pub keep_if : Option SurveyOption → List ℕ → List ℕ
keep_if none kept = kept
keep_if (some o) kept = o.id ∷ kept

unfoldable pub kept_ids : List Text → List SurveyOption → List ℕ
unfolding option_with_text
kept_ids [] os = []
kept_ids (t ∷ ts) os = keep_if (option_with_text t os) (kept_ids ts os)

abbrev pub reorder_if : Option SurveyOption → ℕ → List SurveyOption → List SurveyOption
reorder_if none i os = os
reorder_if (some o) i os = update_by (has_option o.id) (λ p. record p { order = i }) os

unfoldable pub ordered : ℕ → List Text → List SurveyOption → List SurveyOption → List SurveyOption
ordered i [] old os = os
ordered i (t ∷ ts) old os = ordered (suc i) ts old (reorder_if (option_with_text t old) i os)

abbrev pub create_if : Option SurveyOption → ℕ → ℕ → Text → List SurveyOption → List SurveyOption
create_if (some o) new_id i t made = made
create_if none new_id i t made =
    record { id = new_id; text = t; order = i; created_by = none } ∷ made

-- The rows that `bulk_create` adds; their keys follow `new_id`.
unfoldable pub created : ℕ → ℕ → List Text → List SurveyOption → List SurveyOption
unfolding option_with_text
created new_id i [] old = []
created new_id i (t ∷ ts) old =
    create_if (option_with_text t old) new_id i t (created (suc new_id) (suc i) ts old)

-- `SurveyForm.create_options` on an active survey, with the votes that go with their options.
unfoldable pub create_options : ℕ → List Text → Survey → Survey
unfolding kept_ids ordered created
create_options new_id [] s = s
create_options new_id (t ∷ ts) s = record s {
  options =
      filter_by (λ o. is_among (kept_ids (t ∷ ts) s.options) o.id)
        (ordered 0 (t ∷ ts) s.options s.options)
      ++ created new_id 0 (t ∷ ts) s.options;
  votes = filter_by (λ v. is_among (kept_ids (t ∷ ts) s.options) v.option) s.votes;
}

-- The fields of `SurveyForm`.
pub record Form : Type 0 where
  pub end_date : ℕ
  pub allow_multiple_choice : Bool
  pub allow_custom_options : Bool
  pub options_text : List Text

abbrev pub with_form : Form → Survey → Survey
with_form f s = record s {
  end_date = f.end_date;
  allow_multiple_choice = f.allow_multiple_choice;
  allow_custom_options = f.allow_custom_options;
}

-- `survey_edit`; an invalid form is absent. A valid one ends in the future.
unfoldable pub survey_edit : ℕ → ℕ → Option Form → Survey → Bool × Survey
unfolding create_options
survey_edit now new_id none s = (false, s)
survey_edit now new_id (some f) s =
    if is_active now s
    then (true, create_options new_id f.options_text (with_form f s))
    else (false, s)

-- `survey_create`
unfoldable pub survey_create : ℕ → ℕ → Form → Survey
unfolding create_options
survey_create user new_id f = create_options new_id f.options_text (record {
  author = some user;
  end_date = f.end_date;
  allow_multiple_choice = f.allow_multiple_choice;
  allow_custom_options = f.allow_custom_options;
  options = [];
  votes = [];
})

-- `survey_delete`: what is left.
unfoldable pub survey_delete : ℕ → Survey → Option Survey
survey_delete user s = if refers s.author user then none else some s
