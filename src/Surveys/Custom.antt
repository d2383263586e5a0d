-- ===== src/Surveys/Custom.antt =====
-- Options that participants add with their vote (ankiety/views.py, `_cast_vote_with_custom_option`).
use wikikracja.Common.{
  ℕ, ◌≡◌, refl, ap, ◌∙◌, Bool, true, false, not, ◌&&◌, Option, none, some, List, [], ◌∷◌, ◌++◌,
  ◌==◌, ==_refl, if◌then◌else◌, exists_by, Bool-cases, ◌⊎◌, inl, inr, arith, exists_by-append,
}
use wikikracja.Common.Texts.{Text}
use wikikracja.Surveys.Model.{
  SurveyOption, Survey, is_active, has_option, is_among, picked, cast_vote, with_option,
  create_custom_option, iexact, or_rolled_back, cast_vote_with_custom_option,
}
use wikikracja.Surveys.Ballots.{IsKeyed, votes_for, fitting, cast_vote-Casts}

IsKeyed-append :
    (os : List SurveyOption) (o : SurveyOption)
    → IsKeyed os
    → exists_by (has_option o.id) os ≡ false
    → IsKeyed (os ++ o ∷ [])
IsKeyed-append [] o h n = (refl, tt)
IsKeyed-append (p ∷ os) o h n = (
  ground (arith, exists_by-append (has_option p.id) os (o ∷ [])),
  IsKeyed-append os o h.1 (ground arith),
)

-- The new option is among those asked for.
is_among-picked :
    (multiple : Bool) (values : List ℕ) (k : ℕ)
    → is_among (picked multiple values (some k)) k ≡ true
unfolding picked
is_among-picked true values k = exists_by-append (λ i. i == k) values (k ∷ []) ∙ ground arith
is_among-picked false values k = ground arith

module _ (now user : ℕ) (values : List ℕ) (new_id : ℕ) (t : Text) (s : Survey) where
  unfoldable pub opened : Survey
  unfolding with_option
  opened = with_option new_id user t s

  abbrev pub fits : Bool
  fits = fitting (picked s.allow_multiple_choice values (some new_id)) opened

  -- Either the vote and its option are there, or nothing changed, by a condition.
  abbrev pub Together : Bool → Survey → Type 0
  Together b after = ((b ≡ true) × (votes_for user new_id after ≡ 1)) ⊎ ((b ≡ false) × (after ≡ s))

  or_rolled_back-Together :
      (b : Bool) (out : Bool × Survey)
      → out.0 ≡ b
      → votes_for user new_id out.1
        ≡ (if b && user == user then 1 else votes_for user new_id opened)
      → Together b (or_rolled_back s out)
  or_rolled_back-Together true out e h = inl (refl, ground (arith, ==_refl user))
  or_rolled_back-Together false out e h = inr (refl, ground arith)

  opened-IsKeyed :
      IsKeyed s.options → exists_by (has_option new_id) s.options ≡ false → IsKeyed opened.options
  unfolding opened with_option
  opened-IsKeyed h n = IsKeyed-append s.options _ h n

  opened-Together :
      is_active now s ≡ true
      → IsKeyed s.options
      → exists_by (has_option new_id) s.options ≡ false
      → Together fits (or_rolled_back s (cast_vote now user values (some new_id) opened))
  unfolding opened with_option
  opened-Together a h n =
      let cast = cast_vote-Casts now user values (some new_id) opened (opened-IsKeyed h n) in
      or_rolled_back-Together fits (cast_vote now user values (some new_id) opened)
        (cast.0 ∙ ground arith)
        (cast.1 user new_id
          ∙ ground (arith, is_among-picked opened.allow_multiple_choice values new_id))

-- Whether an option is added: the survey is open, the text is given and new, and the options that the
-- vote asks for are different options of the survey with the new one.
abbrev pub is_taken : ℕ → ℕ → List ℕ → ℕ → Option Text → Survey → Bool
is_taken now user values new_id none s = false
is_taken now user values new_id (some t) s =
    is_active now s && (not (exists_by (iexact t) s.options) && fits now user values new_id t s)

adding_run :
    (now user : ℕ) (values : List ℕ) (new_id : ℕ) (t : Text) (s : Survey)
    → is_active now s ≡ true
    → exists_by (iexact t) s.options ≡ false
    → (cast_vote_with_custom_option now user values new_id (some t) s).1
      ≡ or_rolled_back s
          (cast_vote now user values (some new_id) (opened now user values new_id t s))
unfolding cast_vote_with_custom_option create_custom_option opened with_option
adding_run now user values new_id t s a f = ground arith

-- With unique primary keys of options and a new key that is none of them: a request that adds an
-- option to a survey leaves the user with one vote for the new option if the survey is open, the text
-- is given and new, and the options asked for are different ones of the survey; otherwise it changes
-- nothing, also when the option was written before the vote was refused.
pub cast_vote_with_custom_option-Together :
    (now user : ℕ) (values : List ℕ) (new_id : ℕ) (text : Option Text) (s : Survey)
    → IsKeyed s.options
    → exists_by (has_option new_id) s.options ≡ false
    → ((is_taken now user values new_id text s ≡ true)
        × (votes_for user new_id (cast_vote_with_custom_option now user values new_id text s).1
            ≡ 1))
      ⊎ ((is_taken now user values new_id text s ≡ false)
          × ((cast_vote_with_custom_option now user values new_id text s).1 ≡ s))
unfolding cast_vote_with_custom_option create_custom_option opened cast_vote
cast_vote_with_custom_option-Together now user values new_id none s h n = inr (refl, ground arith)
cast_vote_with_custom_option-Together now user values new_id (some t) s h n =
    elim (Bool-cases (is_active now s)) [
      | inr closed ↦ inr (ground arith, ground arith)
      | inl open_now ↦ elim (Bool-cases (exists_by (iexact t) s.options)) [
        | inl there ↦ inr (ground arith, ground arith)
        | inr fresh ↦
            adding open_now fresh (opened-Together now user values new_id t s open_now h n)
      ]
    ]
  where
    adding :
        is_active now s ≡ true
        → exists_by (iexact t) s.options ≡ false
        → Together now user values new_id t s (fits now user values new_id t s) (
            or_rolled_back s
              (cast_vote now user values (some new_id) (opened now user values new_id t s)))
        → ((is_taken now user values new_id (some t) s ≡ true)
            × (votes_for user new_id
                  (cast_vote_with_custom_option now user values new_id (some t) s).1
                ≡ 1))
          ⊎ ((is_taken now user values new_id (some t) s ≡ false)
              × ((cast_vote_with_custom_option now user values new_id (some t) s).1 ≡ s))
    adding a f (inl p) = inl (
      ground (arith, p.0),
      ap (votes_for user new_id) (adding_run now user values new_id t s a f) ∙ p.1,
    )
    adding a f (inr p) = inr (ground (arith, p.0), adding_run now user values new_id t s a f ∙ p.1)
