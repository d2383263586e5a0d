-- ===== src/Voting/Effects/Catching.antt =====
-- Acknowledgements of closed referenda that could not be sent to Redis before
-- (glosowania/management/commands/vote.py, `apply_pending_referendum_effects`).
use wikikracja.Common.{
  ℕ, ◌≡◌, refl, sym, ap, subst, ◌∙◌, true, false, none, some, List, [], ◌∷◌, arith, update_by,
  count_by, exists_by, filter_by, is_some, Bool-cases, Option-cases, inl, inr,
}
use wikikracja.Common.Texts.{Text}
use wikikracja.Voting.Model.{
  Decyzja, ReferendumEffect, parameters, brand_mark, buffer_ack, Moment, find_decyzja,
}
use wikikracja.Voting.Buffer.{acknowledge_claimed_votes, connected}
use wikikracja.Voting.Effects.{
  State, Images, Outcome, is_pending, same_effect, succeeded, retried, finish, run_effect,
  apply_brand_mark, apply_parameters, acknowledge, outcome_of, apply_effect, apply_all,
  apply_pending_referendum_effects,
}
use wikikracja.Voting.Effects.Once.{IsApplied, matching, count-applied}
use wikikracja.Voting.Effects.Keeping.{IsEmptied, Beside, outcome, outcome_lem}

-- An update of the rows of one effect gives no effect a row to be applied.
count-update_by :
    (e x : ReferendumEffect) (f : ReferendumEffect → ReferendumEffect) (es : List ReferendumEffect)
    → ((y : ReferendumEffect) → matching e y ≡ false → matching e (f y) ≡ false)
    → count_by (matching e) es ≡ 0
    → count_by (matching e) (update_by (matching x) f es) ≡ 0
count-update_by e x f [] h z = refl
count-update_by e x f (y ∷ es) h z = ground (arith, h y, count-update_by e x f es h)

-- The acknowledgement is done: no row of it waits, and no claimed votes are left.
abbrev pub IsAcknowledged : ReferendumEffect → State → Type 0
IsAcknowledged e s = IsApplied e s × IsEmptied e.decision s

-- A run of one effect keeps Redis and the decisions, and what was acknowledged before stays so.
finish-Keeps :
    (t : Moment) (x : ReferendumEffect) (s : State) (o : Outcome)
    → Beside s o.0
    → ((finish t x o).world.redis.online ≡ s.world.redis.online)
      × ((finish t x o).world.db.decyzje ≡ s.world.db.decyzje)
      × ((e : ReferendumEffect) → IsAcknowledged e s → IsAcknowledged e (finish t x o))
unfolding finish
finish-Keeps t x s (s', some y) k = (
  k.0,
  k.1,
  λ e a. (
    count-update_by e x retried s'.world.db.effects (λ z h. h)
        (subst (λ es. count_by (matching e) es ≡ 0) (sym k.2) a.0),
    k.3 e.decision a.1,
  ),
)
finish-Keeps t x s (s', none) k = (
  k.0,
  k.1,
  λ e a. (
    count-update_by e x (succeeded t) s'.world.db.effects (λ z h. ground arith)
        (subst (λ es. count_by (matching e) es ≡ 0) (sym k.2) a.0),
    k.3 e.decision a.1,
  ),
)

apply_all-IsAcknowledged :
    (domain : Text) (images : Images) (t : Moment) (e : ReferendumEffect)
    (es : List ReferendumEffect) (s : State)
    → IsAcknowledged e s
    → IsAcknowledged e (apply_all domain images t es s)
unfolding apply_all apply_effect
apply_all-IsAcknowledged domain images t e [] s a = a
apply_all-IsAcknowledged domain images t e (x ∷ es) s a =
    apply_all-IsAcknowledged domain images t e es (apply_effect domain images t x s)
      ((finish-Keeps t x s (outcome domain images x s) (outcome_lem domain images x s)).2 e a)

-- An acknowledgement that raised nothing and left no claimed votes.
abbrev Sends : ℕ → Outcome → Type 0
Sends d o = (s : State) × (o ≡ (s, none)) × IsEmptied d s

acknowledge_online : (d : ℕ) (s : State) → s.world.redis.online ≡ true → Sends d (acknowledge d s)
unfolding acknowledge acknowledge_claimed_votes connected
acknowledge_online d s up = rw up (_, refl, ground arith)

-- What a run of an acknowledgement gives while Redis answers and the decision is there.
acknowledged :
    (domain : Text) (images : Images) (x : ReferendumEffect) (s : State)
    → x.kind ≡ buffer_ack
    → is_some (find_decyzja x.decision s.world.db.decyzje) ≡ true
    → s.world.redis.online ≡ true
    → Sends x.decision (outcome domain images x s)
unfolding run_effect
acknowledged domain images x s k f up =
    elim (Option-cases (find_decyzja x.decision s.world.db.decyzje)) [
      | inl absent ↦ ground (arith, absent)
      | inr found ↦
          subst (Sends x.decision)
            (sym (ap (outcome_of domain images x s) found.1 ∙ at_kind found.0))
            (acknowledge_online x.decision s up)
    ]
  where
    at_kind : (i : Decyzja) → run_effect domain images x i s ≡ acknowledge x.decision s
    at_kind i =
        ap
          (λ q. elim q as (λ z. Outcome) [
            | parameters ↦ apply_parameters images domain i.proposed_parameters s
            | brand_mark ↦ apply_brand_mark images i.proposed_brand_mark s
            | buffer_ack ↦ acknowledge x.decision s
          ])
          k

same_matching : (x e y : ReferendumEffect) → same_effect x e ≡ true → matching e y ≡ matching x y
same_matching x e y h = ground arith

same_ack :
    (x e : ReferendumEffect) → same_effect x e ≡ true → e.kind ≡ buffer_ack → x.kind ≡ buffer_ack
same_ack x e h k = ground arith

module _ (domain : Text) (images : Images) (t : Moment) (e : ReferendumEffect)
    (ack : e.kind ≡ buffer_ack) where
  -- The decision of the effect is there, and Redis answers.
  abbrev Ready : State → Type 0
  Ready s =
      (is_some (find_decyzja e.decision s.world.db.decyzje) ≡ true) × (s.world.redis.online ≡ true)

  apply_effect-IsAcknowledged :
      (x : ReferendumEffect) (s : State)
      → same_effect x e ≡ true
      → Ready s
      → IsAcknowledged e (apply_effect domain images t x s)
  unfolding apply_effect finish
  apply_effect-IsAcknowledged x s h ready =
      let a =
        acknowledged domain images x s (same_ack x e h ack)
          (subst (λ d. is_some (find_decyzja d s.world.db.decyzje) ≡ true) (same_decision x e h)
            ready.0)
          ready.1 in
      subst (λ o. IsAcknowledged e (finish t x o)) (sym a.1)
        (
          count_other x e a.0.world.db.effects h,
          subst (λ d. IsEmptied d a.0) (sym (same_decision x e h)) a.2,
        )
    where
      same_decision : (x e : ReferendumEffect) → same_effect x e ≡ true → e.decision ≡ x.decision
      same_decision x e h = ground arith

      count_same :
          (x e : ReferendumEffect) (es : List ReferendumEffect)
          → same_effect x e ≡ true
          → count_by (matching x) es ≡ 0
          → count_by (matching e) es ≡ 0
      count_same x e [] h z = refl
      count_same x e (y ∷ es) h z = ground (arith, same_matching x e y h, count_same x e es h)

      count_other :
          (x e : ReferendumEffect) (es : List ReferendumEffect)
          → same_effect x e ≡ true
          → count_by (matching e) (update_by (matching x) (succeeded t) es) ≡ 0
      count_other x e es h =
          count_same x e (update_by (matching x) (succeeded t) es) h (count-applied t x es)

  apply_all_applies :
      (es : List ReferendumEffect) (s : State)
      → exists_by (λ x. same_effect x e) es ≡ true
      → Ready s
      → IsAcknowledged e (apply_all domain images t es s)
  unfolding apply_all apply_effect
  apply_all_applies [] s h ready = ground arith
  apply_all_applies (x ∷ es) s h ready = elim (Bool-cases (same_effect x e)) [
    | inl same ↦
        apply_all-IsAcknowledged domain images t e es (apply_effect domain images t x s)
          (apply_effect-IsAcknowledged x s same ready)
    | inr other ↦
        let keeps =
          finish-Keeps t x s (outcome domain images x s) (outcome_lem domain images x s) in
        apply_all_applies es (apply_effect domain images t x s) (ground arith) (
          subst (λ ds. is_some (find_decyzja e.decision ds) ≡ true) (sym keeps.1) ready.0,
          keeps.0 ∙ ready.1,
        )
  ]

  is_listed :
      (es : List ReferendumEffect)
      → exists_by (matching e) es ≡ true
      → exists_by (λ x. same_effect x e) (filter_by is_pending es) ≡ true
  is_listed [] h = h
  is_listed (x ∷ es) h = ground (arith, is_listed es)

  -- An acknowledgement that waits, however often it failed before, is sent by the next run of pending
  -- effects: when Redis answers and the decision is there, Redis holds no claimed votes of the
  -- decision afterwards and no row of the effect waits, whatever the other effects do.
  pub apply_pending_referendum_effects_catches_up :
      (s : State)
      → exists_by (matching e) s.world.db.effects ≡ true
      → is_some (find_decyzja e.decision s.world.db.decyzje) ≡ true
      → s.world.redis.online ≡ true
      → IsAcknowledged e (apply_pending_referendum_effects domain images t s)
  unfolding apply_pending_referendum_effects
  apply_pending_referendum_effects_catches_up s waits f up =
      apply_all_applies (filter_by is_pending s.world.db.effects) s
        (is_listed s.world.db.effects waits) (f, up)
