-- ===== src/Tests/Polls.antt =====
-- Runs of surveys.
use wikikracja.Common.{◌≡◌, refl, true, false, ◌&&◌, none, some, [], ◌∷◌, ◌⊎◌}
use wikikracja.Common.Texts.{codes}
use wikikracja.Surveys.Model.{Survey, is_active, picked, cast_vote, cast_vote_with_custom_option}
use wikikracja.Surveys.Ballots.{Casts, fitting, votes_for, cast_vote-Casts}
use wikikracja.Surveys.Custom.{is_taken, cast_vote_with_custom_option-Together}

abbrev poll : Survey
poll = record {
  author = some 1;
  end_date = 100;
  allow_multiple_choice = true;
  allow_custom_options = true;
  options =
      record { id = 5; text = codes "tea"; order = 0; created_by = none }
      ∷ record { id = 6; text = codes "mate"; order = 1; created_by = none }
      ∷ [];
  votes = record { user = some 3; option = 6 } ∷ record { user = some 2; option = 6 } ∷ [];
}

cast_vote-Casts_example :
    Casts 2
      (picked true (5 ∷ 6 ∷ []) none)
      (is_active 90 poll && fitting (picked true (5 ∷ 6 ∷ []) none) poll)
      poll
      (cast_vote 90 2 (5 ∷ 6 ∷ []) none poll)
cast_vote-Casts_example = cast_vote-Casts 90 2 (5 ∷ 6 ∷ []) none poll (refl, (refl, tt))

cast_vote_with_custom_option-Together_example :
    ((is_taken 90 2 (5 ∷ []) 7 (some (codes "Water")) poll ≡ true)
      × (votes_for 2 7 (cast_vote_with_custom_option 90 2 (5 ∷ []) 7 (some (codes "Water")) poll).1
          ≡ 1))
    ⊎ ((is_taken 90 2 (5 ∷ []) 7 (some (codes "Water")) poll ≡ false)
        × ((cast_vote_with_custom_option 90 2 (5 ∷ []) 7 (some (codes "Water")) poll).1 ≡ poll))
cast_vote_with_custom_option-Together_example =
    cast_vote_with_custom_option-Together 90 2 (5 ∷ []) 7 (some (codes "Water")) poll
      (refl, (refl, tt)) refl
