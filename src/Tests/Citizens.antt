-- ===== src/Tests/Citizens.antt =====
-- Runs of the nightly command on citizens.
use wikikracja.Common.{
  suc, ◌≤◌, ◌≡◌, refl, true, false, none, some, [], ◌∷◌, ok, arith, length, filter_by,
}
use wikikracja.Common.Int.{pos, ◌≤ℤ◌, ◌+ℤ◌}
use wikikracja.Citizens.Model.{Db, profile_active}
use wikikracja.Citizens.Reputation.{population, required_reputation}
use wikikracja.Citizens.Reputation.Threshold.{required_reputation_steps}
use wikikracja.Citizens.Nightly.{Setting, activate_eligible_users, block_ineligible_users}
use wikikracja.Citizens.Nightly.Blocking.{Blocks, block_ineligible_users_exact}
use wikikracja.Citizens.Nightly.Activation.{activate_eligible_users_stops}
use wikikracja.Tests.Data.{user, profile}

-- A group of five, which asks for a reputation of 2; user 6 is a candidate, and all have 1.
abbrev citizens : Db
citizens = record {
  users = user 1 true ∷ user 2 true ∷ user 3 true ∷ user 4 true ∷ user 5 true ∷ user 6 false ∷ [];
  profiles = profile 1 ∷ profile 2 ∷ profile 6 ∷ [];
  rates = record { kandydat = 6; obywatel = 1; rate = some (pos 1) } ∷ [];
  deletions = [];
  resources = record {
    assigned = some 1 ∷ none ∷ [];
    helpers = 1 ∷ 2 ∷ [];
    task_votes = 2 ∷ [];
    authors = [];
    sessions = 1 ∷ [];
  };
  activated = [];
  published = 0;
}

abbrev setting : Setting
setting = record {
  now = 8683200;
  today = 100;
  acceptance = 3;
  delete_inactive_user_after = 30;
  welcome = false;
}

required_reputation_steps_example :
    (required_reputation 4 3 ≤ℤ required_reputation 5 3)
    × (required_reputation 5 3 ≤ℤ required_reputation 4 3 +ℤ pos 1)
    × (required_reputation 4 3 ≤ℤ pos 3)
required_reputation_steps_example = required_reputation_steps 4 3

two_above : ¬ (pos 2 ≤ℤ required_reputation 4 3)
unfolding required_reputation
two_above e = omega (arith, e)

block_ineligible_users_exact_example :
    (after : Db) × (block_ineligible_users setting citizens ≡ ok after)
    × Blocks
        (required_reputation (population citizens) 3)
        (filter_by (profile_active citizens.users) citizens.profiles)
        citizens
        after
block_ineligible_users_exact_example =
    block_ineligible_users_exact setting citizens (refl, (refl, tt))

activate_eligible_users_stops_example :
    length (activate_eligible_users setting citizens).activated ≤ suc (length citizens.activated)
activate_eligible_users_stops_example = activate_eligible_users_stops setting citizens refl
