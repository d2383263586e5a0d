-- ===== src/Resources/Matching.antt =====
-- The rows of `match_active_offers_for_needs` (resources/services.py), beside a direct reading of them.
use wikikracja.Common.{
  ℕ, ◌≡◌, refl, ◌∙◌, sym, ap, Bool, true, false, not, ◌&&◌, ◌||◌, Option, none, some, List, [], ◌∷◌,
  ◌++◌, if◌then◌else◌, exists_by, filter_by, Bool-cases, inl, inr, arith, eq_of,
}
use wikikracja.Common.Texts.{Text, text_eq}
use wikikracja.Resources.Model.{
  Entity, Viewer, Groups, append_to, has_key, get_group, is_empty, group_offers, rows_for, rows_of,
  rows_of_profile, needs_of, offers_of, match_active_offers_for_needs,
}

text_eq-eq : (s t : Text) → text_eq s t ≡ true → s ≡ t
unfolding text_eq
text_eq-eq [] [] h = refl
text_eq-eq [] (y ∷ ys) h = ground (arith, h)
text_eq-eq (x ∷ xs) [] h = ground (arith, h)
text_eq-eq (x ∷ xs) (y ∷ ys) h =
    ap (λ a. a ∷ xs) (eq_of x y (ground (arith, h)))
    ∙ ap (λ l. y ∷ l) (text_eq-eq xs ys (ground (arith, h)))

text_eq_refl : (s : Text) → text_eq s s ≡ true
unfolding text_eq
text_eq_refl [] = refl
text_eq_refl (x ∷ xs) = ground (arith, text_eq_refl xs)

different : (k n m : Text) → text_eq k n ≡ false → text_eq k m ≡ true → text_eq n m ≡ false
different k n m h t = elim (Bool-cases (text_eq n m)) [
  | inl both ↦
      let k_n = text_eq-eq k m t ∙ sym (text_eq-eq n m both) in
      ground (arith, h, ap (λ x. text_eq x n) k_n, text_eq_refl n)
  | inr other ↦ other
]

append_nothing : (xs : List Entity) → xs ++ [] ≡ xs
append_nothing [] = refl
append_nothing (x ∷ xs) = ap (λ l. x ∷ l) (append_nothing xs)

append_assoc : (xs ys zs : List Entity) → (xs ++ ys) ++ zs ≡ xs ++ (ys ++ zs)
append_assoc [] ys zs = refl
append_assoc (x ∷ xs) ys zs = ap (λ l. x ∷ l) (append_assoc xs ys zs)

if-append :
    (b : Bool) (o : Entity) (os : List Entity)
    → (if b then o ∷ [] else []) ++ os ≡ (if b then o ∷ os else os)
if-append true o os = refl
if-append false o os = refl

has_key-append_to :
    (m n : Text) (o : Entity) (gs : Groups)
    → has_key m (append_to n o gs) ≡ (text_eq n m || has_key m gs)
unfolding append_to has_key
has_key-append_to m n o [] = refl
has_key-append_to m n o (g ∷ gs) = elim (Bool-cases (text_eq g.0 n)) [
  | inl same ↦ rw (same, text_eq-eq g.0 n same) (ground arith)
  | inr other ↦ rw (other, has_key-append_to m n o gs) (ground arith)
]

get_group-append_to :
    (m n : Text) (o : Entity) (gs : Groups)
    → get_group m (append_to n o gs) ≡ get_group m gs ++ (if text_eq n m then o ∷ [] else [])
unfolding append_to get_group
get_group-append_to m n o [] = ground arith
get_group-append_to m n o (g ∷ gs) = elim (Bool-cases (text_eq g.0 n)) [
  | inl same ↦ rw (same, text_eq-eq g.0 n same) (ground (arith, append_nothing (get_group m gs)))
  | inr other ↦ rw other (elim (Bool-cases (text_eq g.0 m)) [
    | inl here ↦ rw (here, different g.0 n m other here) (sym (append_nothing g.1))
    | inr there ↦ rw there (get_group-append_to m n o gs)
  ])
]

module _ (normalized : Text → Text) where
  -- The offer has that name, which is not empty.
  abbrev pub has_name : Text → Entity → Bool
  has_name m o = not (is_empty (normalized o.name)) && text_eq (normalized o.name) m

  has_key-group_offers :
      (m : Text) (os : List Entity) (gs : Groups)
      → has_key m (group_offers normalized gs os) ≡ (has_key m gs || exists_by (has_name m) os)
  unfolding group_offers
  has_key-group_offers m [] gs = ground arith
  has_key-group_offers m (o ∷ os) gs = elim (Bool-cases (is_empty (normalized o.name))) [
    | inl empty ↦ rw empty (has_key-group_offers m os gs)
    | inr named ↦ rw named (
        has_key-group_offers m os (append_to (normalized o.name) o gs)
        ∙ ground (arith, has_key-append_to m (normalized o.name) o gs))
  ]

  get_group-group_offers :
      (m : Text) (os : List Entity) (gs : Groups)
      → get_group m (group_offers normalized gs os) ≡ get_group m gs ++ filter_by (has_name m) os
  unfolding group_offers
  get_group-group_offers m [] gs = sym (append_nothing (get_group m gs))
  get_group-group_offers m (o ∷ os) gs = elim (Bool-cases (is_empty (normalized o.name))) [
    | inl empty ↦ rw empty (get_group-group_offers m os gs)
    | inr named ↦ rw named (
        get_group-group_offers m os (append_to (normalized o.name) o gs)
        ∙ (rw (get_group-append_to m (normalized o.name) o gs) (
            append_assoc (get_group m gs) _ _
            ∙ ap (λ l. get_group m gs ++ l) (if-append (text_eq (normalized o.name) m) o _))))
  ]

  -- The needs that have an offer of their name, each with all of these.
  unfoldable pub matched : List Entity → List Entity → List (Entity × List Entity)
  matched offers [] = []
  matched offers (e ∷ es) =
      let own = has_name (normalized e.name) in
      if exists_by own offers
      then (e, filter_by own offers) ∷ matched offers es
      else matched offers es

  rows_for-group_offers :
      (offers es : List Entity)
      → rows_for normalized (group_offers normalized [] offers) es ≡ matched offers es
  unfolding rows_for matched has_key get_group
  rows_for-group_offers offers [] = refl
  rows_for-group_offers offers (e ∷ es) =
      rw
        (
          has_key-group_offers (normalized e.name) offers [],
          get_group-group_offers (normalized e.name) offers [],
          rows_for-group_offers offers es,
        )
        refl

  abbrev pub wanted_rows : (ℕ → Bool) → List Entity → ℕ → Option ℕ → List (Entity × List Entity)
  wanted_rows is_active entities user none = []
  wanted_rows is_active entities user (some profile) =
      matched (offers_of is_active entities) (needs_of is_active user profile entities)

  rows_of-matched : (offers es : List Entity) → rows_of normalized offers es ≡ matched offers es
  unfolding matched
  rows_of-matched offers [] = refl
  rows_of-matched offers (e ∷ es) = rows_for-group_offers offers (e ∷ es)

  rows_of_profile-wanted_rows :
      (is_active : ℕ → Bool) (entities : List Entity) (user : ℕ) (profile : Option ℕ)
      → rows_of_profile normalized is_active entities user profile
        ≡ wanted_rows is_active entities user profile
  rows_of_profile-wanted_rows is_active entities user none = refl
  rows_of_profile-wanted_rows is_active entities user (some profile) = rows_of-matched _ _

  -- `match_active_offers_for_needs` gives nothing to a user who is not active or has no profile; to
  -- another it gives, in the order of the table, the user's open needs for which there is an open
  -- offer of the same normal name that is not empty, each with all offers of that name.
  pub match_active_offers_for_needs_exact :
      (is_active : ℕ → Bool) (entities : List Entity) (user : Viewer)
      → match_active_offers_for_needs normalized is_active entities user
        ≡ (if user.is_active then wanted_rows is_active entities user.id user.profile else [])
  unfolding match_active_offers_for_needs
  match_active_offers_for_needs_exact is_active entities user = elim (Bool-cases user.is_active) [
    | inl on ↦ rw on (rows_of_profile-wanted_rows is_active entities user.id user.profile)
    | inr off ↦ rw off refl
  ]
