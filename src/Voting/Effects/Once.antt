-- ===== src/Voting/Effects/Once.antt =====
-- The rows of effects that wait to be applied (glosowania/management/commands/vote.py,
-- `apply_pending_referendum_effects`).
use wikikracja.Common.{
  ◌≡◌, refl, Bool, false, List, [], ◌∷◌, arith, update_by, count_by, Bool-cases, inl, inr, ◌&&◌,
}
use wikikracja.Voting.Model.{ReferendumEffect, Moment}
use wikikracja.Voting.Effects.{State, is_pending, same_effect, succeeded}

abbrev pub matching : ReferendumEffect → ReferendumEffect → Bool
matching e e' = same_effect e' e && is_pending e'

-- No row of the effect is left to be applied.
abbrev pub IsApplied : ReferendumEffect → State → Type 0
IsApplied e s = count_by (matching e) s.world.db.effects ≡ 0

matching-succeeded : (t : Moment) (e x : ReferendumEffect) → matching e (succeeded t x) ≡ false
matching-succeeded t e x = ground arith

pub count-applied :
    (t : Moment) (e : ReferendumEffect) (es : List ReferendumEffect)
    → count_by (matching e) (update_by (matching e) (succeeded t) es) ≡ 0
count-applied t e [] = refl
count-applied t e (x ∷ es) = elim (Bool-cases (matching e x)) [
  | inl m ↦ rw m (rw (matching-succeeded t e x) (count-applied t e es))
  | inr m ↦ rw m (rw m (count-applied t e es))
]
