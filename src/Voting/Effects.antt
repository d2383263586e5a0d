-- ===== src/Voting/Effects.antt =====
-- The effects of approved referenda (glosowania/management/commands/vote.py,
-- `apply_pending_referendum_effects`), with site_settings/params.py (`apply_parameters`,
-- `apply_brand_mark`) and site_settings/models.py (`SiteParameters.save`). Storing a logo is code of
-- Django and Pillow, so its outcome comes from outside.
pub mod Once
pub mod Keeping
pub mod Catching
use wikikracja.Common.{
  ℕ, ◌+◌, Bool, true, false, not, ◌&&◌, Option, none, some, List, [], ◌∷◌, map, ok, err, Result,
  Error, ◌==◌, if◌then◌else◌, filter_by, is_some, update_by, does_not_exist, or_raise, type_error,
  ◌>>=◌,
}
use wikikracja.Common.Texts.{Text}
use wikikracja.Settings.Values.{Proposed}
use wikikracja.Settings.Params.{SiteParameters, Site, apply_items, names_site, sync_django_site}
use wikikracja.Voting.Model.{
  Decyzja, ReferendumEffect, Kind, parameters, brand_mark, buffer_ack, Moment, find_decyzja, Db,
}
use wikikracja.Voting.World.{World, Redis}
use wikikracja.Voting.Buffer.{acknowledge_claimed_votes}
use wikikracja.Voting.Tables.{same_kind}

-- The settings of the site beside the world of the votes.
pub record State : Type 0 where
  pub world : World
  pub params : SiteParameters
  pub site : Option Site
  pub logo : Option Text

abbrev pub is_pending : ReferendumEffect → Bool
is_pending e = not (is_some e.applied_at)

abbrev pub same_effect : ReferendumEffect → ReferendumEffect → Bool
same_effect e f = e.decision == f.decision && same_kind e.kind f.kind

-- What Django's storage and Pillow do with a logo: `store` keeps a new file under a name, `normalize`
-- gives the name of the file that is saved, and `derive` makes the icons of a logo, or removes them
-- when there is none; each may raise.
pub record Images : Type 0 where
  pub store : Text → Result Text
  pub normalize : Text → Result Text
  pub derive : Option Text → Option Error

-- The state that code leaves, and what it raised, if anything.
abbrev pub Outcome : Type 0
Outcome = State × Option Error

unfoldable pub normalized : Images → Option Text → Result (Option Text)
normalized images none = ok none
normalized images (some file) = do name ← images.normalize file; ok (some name)

-- `SiteParameters.save`: the row is stored before the icons are made.
unfoldable pub save_parameters : Images → SiteParameters → Option Text → State → Outcome
unfolding normalized
save_parameters images sp logo s = elim (normalized images logo) [
  | err e ↦ (s, some e)
  | ok name ↦ (record s { params = sp; logo = name }, images.derive name)
]

-- `apply_brand_mark`: nothing happens without a file.
unfoldable pub apply_brand_mark : Images → Option Text → State → Outcome
unfolding save_parameters
apply_brand_mark images none s = (s, none)
apply_brand_mark images (some file) s = elim (images.store file) [
  | err e ↦ (s, some e)
  | ok name ↦ save_parameters images s.params (some name) s
]

-- `_sync_django_site`, reached when saving raised nothing.
unfoldable pub synced : Text → Proposed → Outcome → Outcome
synced domain p (s, some e) = (s, some e)
synced domain p (s, none) =
    (if names_site p then record s { site = sync_django_site domain s.params s.site } else s, none)

-- `apply_parameters`; `proposed.items()` of NULL raises.
unfoldable pub apply_parameters : Images → Text → Option Proposed → State → Outcome
unfolding save_parameters synced
apply_parameters images domain none s = (s, some type_error)
apply_parameters images domain (some p) s = elim (apply_items p s.params) [
  | err e ↦ (s, some e)
  | ok sp ↦ synced domain p (save_parameters images sp s.logo s)
]

unfoldable pub acknowledge : ℕ → State → Outcome
acknowledge d s =
    let (r, w) = acknowledge_claimed_votes d s.world in
    (record s { world = w }, elim r [ ok _ ↦ none | err e ↦ some e ])

-- The body of the `try`.
unfoldable pub run_effect : Text → Images → ReferendumEffect → Decyzja → State → Outcome
unfolding apply_brand_mark apply_parameters acknowledge
run_effect domain images e i s = elim e.kind [
  | parameters ↦ apply_parameters images domain i.proposed_parameters s
  | brand_mark ↦ apply_brand_mark images i.proposed_brand_mark s
  | buffer_ack ↦ acknowledge e.decision s
]

abbrev pub succeeded : Moment → ReferendumEffect → ReferendumEffect
succeeded t e = record e { attempts = e.attempts + 1; failed = false; applied_at = some t.now }

abbrev pub retried : ReferendumEffect → ReferendumEffect
retried e = record e { attempts = e.attempts + 1; failed = true }

-- `filter(pk=effect_id, applied_at__isnull=True).update(...)`; a decision has one effect of a kind.
abbrev pub update_effect : ReferendumEffect → (ReferendumEffect → ReferendumEffect) → State → State
update_effect e f s = record s {
  world = record s.world {
    db = record s.world.db {
      effects = update_by (λ e'. same_effect e' e && is_pending e') f s.world.db.effects;
    };
  };
}

-- What the effect stored before it raised stays.
unfoldable pub finish : Moment → ReferendumEffect → Outcome → State
finish t e (s, none) = update_effect e (succeeded t) s
finish t e (s, some _) = update_effect e retried s

-- The outcome of an effect; its decision is looked up first.
abbrev pub outcome_of : Text → Images → ReferendumEffect → State → Option Decyzja → Outcome
outcome_of domain images e s none = (s, some does_not_exist)
outcome_of domain images e s (some i) = run_effect domain images e i s

unfoldable pub apply_effect : Text → Images → Moment → ReferendumEffect → State → State
unfolding finish run_effect
apply_effect domain images t e s =
    finish t e (outcome_of domain images e s (find_decyzja e.decision s.world.db.decyzje))

unfoldable pub apply_all : Text → Images → Moment → List ReferendumEffect → State → State
unfolding apply_effect
apply_all domain images t [] s = s
apply_all domain images t (e ∷ es) s =
    apply_all domain images t es (apply_effect domain images t e s)

unfoldable pub apply_pending_referendum_effects : Text → Images → Moment → State → State
unfolding apply_all
apply_pending_referendum_effects domain images t s =
    apply_all domain images t (filter_by is_pending s.world.db.effects) s
