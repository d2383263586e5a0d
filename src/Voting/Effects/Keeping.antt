-- ===== src/Voting/Effects/Keeping.antt =====
-- What the effects of referenda leave of Redis, the decisions and the rows of effects
-- (glosowania/management/commands/vote.py, `apply_pending_referendum_effects`).
use wikikracja.Common.{
  ℕ, ◌≡◌, refl, Option, none, some, [], ok, err, Result, arith, Bool-cases, inl, inr,
}
use wikikracja.Common.Texts.{Text}
use wikikracja.Settings.Values.{Proposed}
use wikikracja.Settings.Params.{SiteParameters, apply_items, names_site}
use wikikracja.Voting.Model.{
  Decyzja, ReferendumEffect, Kind, parameters, brand_mark, buffer_ack, find_decyzja,
}
use wikikracja.Voting.Buffer.{acknowledge_claimed_votes, connected}
use wikikracja.Voting.Effects.{
  State, Images, Outcome, run_effect, normalized, save_parameters, synced, apply_brand_mark,
  apply_parameters, acknowledge, outcome_of,
}

-- No claimed votes of the decision are left.
abbrev pub IsEmptied : ℕ → State → Type 0
IsEmptied d s = s.world.redis.claimed d ≡ []

-- Redis answers as before, the decisions and the effects are the same, and no claimed votes come back.
abbrev pub Beside : State → State → Type 0
Beside s s' =
    (s'.world.redis.online ≡ s.world.redis.online)
    × (s'.world.db.decyzje ≡ s.world.db.decyzje)
    × (s'.world.db.effects ≡ s.world.db.effects)
    × ((d : ℕ) → IsEmptied d s → IsEmptied d s')

itself : (s : State) → Beside s s
itself s = (refl, refl, refl, λ d h. h)

acknowledge_lem : (d : ℕ) (s : State) → Beside s (acknowledge d s).0
unfolding acknowledge acknowledge_claimed_votes connected
acknowledge_lem d s = elim (Bool-cases s.world.redis.online) [
  | inl up ↦ rw up (refl, refl, refl, λ k h. ground arith)
  | inr down ↦ rw down (refl, refl, refl, λ k h. h)
]

save_parameters_lem :
    (images : Images) (sp : SiteParameters) (logo : Option Text) (s : State)
    → Beside s (save_parameters images sp logo s).0
unfolding save_parameters
save_parameters_lem images sp logo s = saved (normalized images logo)
  where
    saved :
        (r : Result (Option Text))
        → Beside s
            (elim r as (λ x. Outcome) [
              | err e ↦ (s, some e)
              | ok name ↦ (record s { params = sp; logo = name }, images.derive name)
            ]).0
    saved (err e) = itself s
    saved (ok name) = (refl, refl, refl, λ d h. h)

synced_lem :
    (domain : Text) (p : Proposed) (s : State) (o : Outcome)
    → Beside s o.0
    → Beside s (synced domain p o).0
unfolding synced
synced_lem domain p s (s', some e) h = h
synced_lem domain p s (s', none) h = elim (Bool-cases (names_site p)) [
  | inl named ↦ rw named h
  | inr other ↦ rw other h
]

apply_parameters_lem :
    (images : Images) (domain : Text) (o : Option Proposed) (s : State)
    → Beside s (apply_parameters images domain o s).0
unfolding apply_parameters
apply_parameters_lem images domain none s = itself s
apply_parameters_lem images domain (some p) s = applied (apply_items p s.params)
  where
    applied :
        (r : Result SiteParameters)
        → Beside s
            (elim r as (λ x. Outcome) [
              | err e ↦ (s, some e)
              | ok sp ↦ synced domain p (save_parameters images sp s.logo s)
            ]).0
    applied (err e) = itself s
    applied (ok sp) = synced_lem domain p s _ (save_parameters_lem images sp s.logo s)

apply_brand_mark_lem :
    (images : Images) (o : Option Text) (s : State) → Beside s (apply_brand_mark images o s).0
unfolding apply_brand_mark
apply_brand_mark_lem images none s = itself s
apply_brand_mark_lem images (some file) s = stored (images.store file)
  where
    stored :
        (r : Result Text)
        → Beside s
            (elim r as (λ x. Outcome) [
              | err e ↦ (s, some e)
              | ok name ↦ save_parameters images s.params (some name) s
            ]).0
    stored (err e) = itself s
    stored (ok name) = save_parameters_lem images s.params (some name) s

run_effect_lem :
    (domain : Text) (images : Images) (e : ReferendumEffect) (i : Decyzja) (s : State)
    → Beside s (run_effect domain images e i s).0
unfolding run_effect
run_effect_lem domain images e i s = by_kind e.kind
  where
    by_kind :
        (k : Kind)
        → Beside s
            (elim k as (λ x. Outcome) [
              | parameters ↦ apply_parameters images domain i.proposed_parameters s
              | brand_mark ↦ apply_brand_mark images i.proposed_brand_mark s
              | buffer_ack ↦ acknowledge e.decision s
            ]).0
    by_kind parameters = apply_parameters_lem images domain i.proposed_parameters s
    by_kind brand_mark = apply_brand_mark_lem images i.proposed_brand_mark s
    by_kind buffer_ack = acknowledge_lem e.decision s

abbrev pub outcome : Text → Images → ReferendumEffect → State → Outcome
outcome domain images e s =
    outcome_of domain images e s (find_decyzja e.decision s.world.db.decyzje)

pub outcome_lem :
    (domain : Text) (images : Images) (e : ReferendumEffect) (s : State)
    → Beside s (outcome domain images e s).0
outcome_lem domain images e s = looked_up (find_decyzja e.decision s.world.db.decyzje)
  where
    looked_up : (o : Option Decyzja) → Beside s (outcome_of domain images e s o).0
    looked_up none = itself s
    looked_up (some i) = run_effect_lem domain images e i s
