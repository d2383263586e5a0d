-- ===== src/Tests/Offers.antt =====
-- Runs of the matching of resources.
use wikikracja.Common.{ℕ, ◌≡◌, true, false, Option, none, some, List, [], ◌∷◌, if◌then◌else◌}
use wikikracja.Common.Texts.{codes}
use wikikracja.Resources.Model.{Entity, Viewer, Kind, match_active_offers_for_needs}
use wikikracja.Resources.Matching.{wanted_rows, match_active_offers_for_needs_exact}

abbrev listed : ℕ → Kind → Option ℕ → Entity
listed id kind member = record {
  id = id;
  name = codes "bike";
  author = none;
  is_community_owned = false;
  assigned_member = member;
  resource_kind = kind;
  is_closed = false;
}

abbrev entities : List Entity
entities =
    listed 1 Kind.borrow (some 8) ∷ listed 2 Kind.need (some 7) ∷ listed 3 Kind.give (some 9) ∷ []

abbrev viewer : Viewer
viewer = record { id = 4; is_active = true; profile = some 7 }

match_active_offers_for_needs_exact_example :
    match_active_offers_for_needs (λ n. n) (λ k. true) entities viewer ≡ (
      if viewer.is_active
      then wanted_rows (λ n. n) (λ k. true) entities viewer.id viewer.profile
      else [])
match_active_offers_for_needs_exact_example =
    match_active_offers_for_needs_exact (λ n. n) (λ k. true) entities viewer
