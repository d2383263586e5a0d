-- ===== src/Resources/Model.antt =====
-- `match_active_offers_for_needs` (resources/services.py). The table of entities is listed in the order
-- of names and keys. The normal form of a name, which the tables of Unicode give, comes in as
-- `normalized`, and `is_active` tells the profiles whose user is active.
use wikikracja.Common.{
  ℕ, Bool, true, false, not, ◌&&◌, ◌||◌, Option, none, some, List, [], ◌∷◌, ◌++◌, ◌==◌,
  if◌then◌else◌, filter_by,
}
use wikikracja.Common.Texts.{Text, text_eq}

pub data Kind : Type 0 where
  give borrow sale need : Kind

-- An entity of the type resource.
pub record Entity : Type 0 where
  pub id : ℕ
  pub name : Text
  pub author : Option ℕ
  pub is_community_owned : Bool
  pub assigned_member : Option ℕ
  pub resource_kind : Kind
  pub is_closed : Bool

pub record Viewer : Type 0 where
  pub id : ℕ
  pub is_active : Bool
  pub profile : Option ℕ

abbrev pub is_need : Kind → Bool
is_need Kind.need = true
is_need Kind.give = false
is_need Kind.borrow = false
is_need Kind.sale = false

abbrev pub holds_at : (ℕ → Bool) → Option ℕ → Bool
holds_at p none = false
holds_at p (some k) = p k

-- `public_active`
abbrev pub is_public_active : (ℕ → Bool) → Entity → Bool
is_public_active is_active e =
    not e.is_closed && (e.is_community_owned || holds_at is_active e.assigned_member)

abbrev pub is_own : ℕ → ℕ → Entity → Bool
is_own user profile e =
    holds_at (λ k. k == user) e.author
    || (holds_at (λ k. k == profile) e.assigned_member || e.is_community_owned)

-- `offers_by_name`: a dictionary in the order of its keys' first use.
abbrev pub Groups : Type 0
Groups = List (Text × List Entity)

unfoldable pub append_to : Text → Entity → Groups → Groups
append_to n o [] = (n, o ∷ []) ∷ []
append_to n o (g ∷ gs) = if text_eq g.0 n then (g.0, g.1 ++ (o ∷ [])) ∷ gs else g ∷ append_to n o gs

unfoldable pub has_key : Text → Groups → Bool
has_key n [] = false
has_key n (g ∷ gs) = text_eq g.0 n || has_key n gs

unfoldable pub get_group : Text → Groups → List Entity
get_group n [] = []
get_group n (g ∷ gs) = if text_eq g.0 n then g.1 else get_group n gs

abbrev pub is_empty : Text → Bool
is_empty [] = true
is_empty (c ∷ cs) = false

abbrev pub needs_of : (ℕ → Bool) → ℕ → ℕ → List Entity → List Entity
needs_of is_active user profile entities =
    filter_by
      (λ e. is_need e.resource_kind && (is_public_active is_active e && is_own user profile e))
      entities

abbrev pub offers_of : (ℕ → Bool) → List Entity → List Entity
offers_of is_active entities =
    filter_by (λ e. not (is_need e.resource_kind) && is_public_active is_active e) entities

module _ (normalized : Text → Text) where
  unfoldable pub group_offers : Groups → List Entity → Groups
  unfolding append_to
  group_offers gs [] = gs
  group_offers gs (o ∷ os) =
      let n = normalized o.name in group_offers (if is_empty n then gs else append_to n o gs) os

  -- The list that is returned, one row for each need with an offer.
  unfoldable pub rows_for : Groups → List Entity → List (Entity × List Entity)
  unfolding has_key get_group
  rows_for gs [] = []
  rows_for gs (e ∷ es) =
      let n = normalized e.name in
      if has_key n gs then (e, get_group n gs) ∷ rows_for gs es else rows_for gs es

  -- `if not needs`
  abbrev pub rows_of : List Entity → List Entity → List (Entity × List Entity)
  rows_of offers [] = []
  rows_of offers (e ∷ es) = rows_for (group_offers [] offers) (e ∷ es)

  abbrev pub rows_of_profile : (ℕ → Bool) → List Entity → ℕ → Option ℕ → List (Entity × List Entity)
  rows_of_profile is_active entities user none = []
  rows_of_profile is_active entities user (some profile) =
      rows_of (offers_of is_active entities) (needs_of is_active user profile entities)

  -- `match_active_offers_for_needs`
  unfoldable pub match_active_offers_for_needs :
      (ℕ → Bool) → List Entity → Viewer → List (Entity × List Entity)
  unfolding group_offers rows_for
  match_active_offers_for_needs is_active entities user =
      if not user.is_active then [] else rows_of_profile is_active entities user.id user.profile
