-- ===== src/Surveys/Ballots.antt =====
-- Votes in surveys (ankiety/views.py, `_cast_vote`).
use wikikracja.Common.{
  ℕ, ◌+◌, ◌≤◌, ◌≡◌, refl, sym, ap, subst, Bool, true, false, ◌&&◌, Option, List, [], ◌∷◌, ◌++◌,
  ◌==◌, if◌then◌else◌, refers, bit, length, exists_by, filter_by, reject_by, count_by, Bool-cases,
  inl, inr, arith, eq_of, count_by-append, length-filter_by,
}
use wikikracja.Surveys.Model.{
  SurveyOption, SurveyVote, Survey, is_active, has_option, is_among, vote_of, picked, no_repeats,
  new_votes, chosen, cast_picked, cast_vote,
}

-- No two options of a survey have the same primary key.
abbrev pub IsKeyed : List SurveyOption → Type 0
IsKeyed [] = Unit
IsKeyed (o ∷ os) = (exists_by (has_option o.id) os ≡ false) × IsKeyed os

abbrev pub ballot : ℕ → ℕ → SurveyVote → Bool
ballot user k v = refers v.user user && v.option == k

-- The votes of a user for an option.
abbrev pub votes_for : ℕ → ℕ → Survey → ℕ
votes_for user k s = count_by (ballot user k) s.votes

abbrev pub all_present : List ℕ → List SurveyOption → Bool
all_present [] os = true
all_present (k ∷ ks) os = exists_by (has_option k) os && all_present ks os

count_absent :
    (k : ℕ) (os : List SurveyOption)
    → exists_by (has_option k) os ≡ false
    → count_by (has_option k) os ≡ 0
count_absent k [] h = refl
count_absent k (o ∷ os) h = ground (arith, count_absent k os)

count_keyed :
    (k : ℕ) (os : List SurveyOption)
    → IsKeyed os
    → count_by (has_option k) os ≡ bit (exists_by (has_option k) os)
count_keyed k [] h = refl
count_keyed k (o ∷ os) h = elim (Bool-cases (o.id == k)) [
  | inl it ↦ ground (arith, count_absent k os, eq_of o.id k it)
  | inr other ↦ ground (arith, count_keyed k os h.1)
]

abbrev among_count : List ℕ → List SurveyOption → ℕ
among_count ks os = count_by (λ o. is_among ks o.id) os

among_count-cons :
    (k : ℕ) (ks : List ℕ) (os : List SurveyOption)
    → is_among ks k ≡ false
    → among_count (k ∷ ks) os ≡ count_by (has_option k) os + among_count ks os
among_count-cons k ks [] h = refl
among_count-cons k ks (o ∷ os) h = elim (Bool-cases (k == o.id)) [
  | inl it ↦ ground (arith, among_count-cons k ks os h, ap (is_among ks) (eq_of k o.id it))
  | inr other ↦ ground (arith, among_count-cons k ks os h)
]

none_count : (os : List SurveyOption) → among_count [] os ≡ 0
none_count [] = refl
none_count (o ∷ os) = ground (arith, none_count os)

-- Options that are asked for once each are found once each, or not.
among_count-present :
    (ks : List ℕ) (os : List SurveyOption)
    → IsKeyed os
    → no_repeats ks ≡ true
    → (among_count ks os ≤ length ks) × ((among_count ks os == length ks) ≡ all_present ks os)
unfolding no_repeats
among_count-present [] os h n = (ground (arith, none_count os), ground (arith, none_count os))
among_count-present (k ∷ ks) os h n =
    let rest = among_count-present ks os h (ground arith) in
    (
      ground (arith, rest.0, among_count-cons k ks os, count_keyed k os h),
      ground (arith, rest.0, rest.1, among_count-cons k ks os, count_keyed k os h),
    )

present_one :
    (k : ℕ) (ks : List ℕ) (os : List SurveyOption)
    → all_present ks os ≡ true
    → is_among ks k ≡ true
    → exists_by (has_option k) os ≡ true
present_one k [] os p h = ground arith
present_one k (j ∷ ks) os p h = elim (Bool-cases (j == k)) [
  | inl it ↦ ground (arith, ap (λ i. exists_by (has_option i) os) (eq_of j k it))
  | inr other ↦ ground (arith, present_one k ks os)
]

count_chosen :
    (k : ℕ) (ks : List ℕ) (os : List SurveyOption)
    → count_by (has_option k) (filter_by (λ o. is_among ks o.id) os)
      ≡ (if is_among ks k then count_by (has_option k) os else 0)
count_chosen k ks [] = ground arith
count_chosen k ks (o ∷ os) = elim (Bool-cases (o.id == k)) [
  | inl it ↦ ground (arith, count_chosen k ks os, ap (is_among ks) (eq_of o.id k it))
  | inr other ↦ ground (arith, count_chosen k ks os)
]

count_new :
    (j user k : ℕ) (os : List SurveyOption)
    → count_by (ballot j k) (new_votes user os)
      ≡ (if j == user then count_by (has_option k) os else 0)
count_new j user k [] = ground arith
count_new j user k (o ∷ os) = ground (arith, count_new j user k os)

count_old :
    (j user k : ℕ) (vs : List SurveyVote)
    → count_by (ballot j k) (reject_by (vote_of user) vs)
      ≡ (if j == user then 0 else count_by (ballot j k) vs)
count_old j user k [] = ground arith
count_old j user k (v ∷ vs) = ground (arith, count_old j user k vs)

-- What a vote for some options does: taken if they fit, and then they are the user's votes.
abbrev pub Casts : ℕ → List ℕ → Bool → Survey → Bool × Survey → Type 0
Casts user ks fits s out =
    (out.0 ≡ fits)
    × ((j k : ℕ)
        → votes_for j k out.1
          ≡ (if fits && j == user then bit (is_among ks k) else votes_for j k s))

abbrev pub fitting : List ℕ → Survey → Bool
fitting ks s = no_repeats ks && all_present ks s.options

chosen_votes :
    (user j k : ℕ) (ks : List ℕ) (s : Survey)
    → IsKeyed s.options
    → fitting ks s ≡ true
    → count_by (ballot j k) (reject_by (vote_of user) s.votes ++ new_votes user (chosen ks s))
      ≡ (if j == user then bit (is_among ks k) else votes_for j k s)
chosen_votes user j k ks s h f = ground (
  arith,
  count_by-append (ballot j k) (reject_by (vote_of user) s.votes) (new_votes user (chosen ks s)),
  count_old j user k s.votes,
  count_new j user k (chosen ks s),
  count_chosen k ks s.options,
  count_keyed k s.options h,
  present_one k ks s.options,
)

abbrev taken : ℕ → List ℕ → Survey → Survey
taken user ks s = record s {
  votes = reject_by (vote_of user) s.votes ++ new_votes user (chosen ks s);
}

abbrev taken_if : Bool → ℕ → List ℕ → Survey → Bool × Survey
taken_if b user ks s = if b then (true, taken user ks s) else (false, s)

cast_picked_lem :
    (user k : ℕ) (ks : List ℕ) (s : Survey)
    → IsKeyed s.options
    → cast_picked user (k ∷ ks) s ≡ taken_if (fitting (k ∷ ks) s) user (k ∷ ks) s
unfolding cast_picked
cast_picked_lem user k ks s h = elim (Bool-cases (no_repeats (k ∷ ks))) [
  | inr twice ↦ ground (arith, twice)
  | inl once ↦ ground (
    arith,
    once,
    length-filter_by (λ o. is_among (k ∷ ks) o.id) s.options,
    (among_count-present (k ∷ ks) s.options h once).1,
  )
]

taken_if-Casts :
    (b : Bool) (user : ℕ) (ks : List ℕ) (s : Survey)
    → IsKeyed s.options
    → fitting ks s ≡ b
    → Casts user ks b s (taken_if b user ks s)
taken_if-Casts true user ks s h f = (refl, λ j k. ground (arith, chosen_votes user j k ks s h f))
taken_if-Casts false user ks s h f = (refl, λ j k. refl)

cast_picked-Casts :
    (user : ℕ) (ks : List ℕ) (s : Survey)
    → IsKeyed s.options
    → Casts user ks (fitting ks s) s (cast_picked user ks s)
unfolding cast_picked no_repeats
cast_picked-Casts user [] s h = (refl, λ j k. ground (arith, count_old j user k s.votes))
cast_picked-Casts user (k ∷ ks) s h =
    subst (Casts user (k ∷ ks) (fitting (k ∷ ks) s) s) (sym (cast_picked_lem user k ks s h))
      (taken_if-Casts (fitting (k ∷ ks) s) user (k ∷ ks) s h refl)

-- With unique primary keys of options, a vote is taken exactly when the survey is open and the options
-- asked for are different options of it; then the user's votes are one for each of these and none
-- for any other, and in all cases the votes of the other users, and those of the user when the vote
-- is refused, stay as they were.
pub cast_vote-Casts :
    (now user : ℕ) (values : List ℕ) (custom : Option ℕ) (s : Survey)
    → IsKeyed s.options
    → Casts user
        (picked s.allow_multiple_choice values custom)
        (is_active now s && fitting (picked s.allow_multiple_choice values custom) s)
        s
        (cast_vote now user values custom s)
unfolding cast_vote
cast_vote-Casts now user values custom s h = by_time (is_active now s)
  where
    asked : List ℕ
    asked = picked s.allow_multiple_choice values custom

    by_time :
        (b : Bool)
        → Casts user asked
            (b && fitting asked s)
            s
            (if b then cast_picked user asked s else (false, s))
    by_time true = cast_picked-Casts user asked s h
    by_time false = (refl, λ j k. refl)
