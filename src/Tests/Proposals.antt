-- ===== src/Tests/Proposals.antt =====
-- Runs of signatures, edits, effects and parameters of proposals.
use wikikracja.Common.{
  value_error, ℕ, ◌⊎◌, ◌≤◌, ◌≡◌, refl, true, false, none, some, [], ◌∷◌, ok, arith, count_by,
}
use wikikracja.Common.Int.{pos, negsuc}
use wikikracja.Settings.Params.{apply_items}
use wikikracja.Settings.Params.Bounds.{InBounds, Keeps, apply_items-Keeps}
use wikikracja.Settings.Values.{Proposed, Name, int}
use wikikracja.Voting.Model.{
  Decyzja, proposition, find_decyzja, ReferendumEffect, buffer_ack, parameters,
}
use wikikracja.Voting.Signing.{sign, withdraw}
use wikikracja.Voting.Signing.Counter.{IsCounted, sign-IsCounted, withdraw-IsCounted}
use wikikracja.Voting.Tables.{signed_by}
use wikikracja.Voting.Editing.{delete_proposal, Form, post, edit}
use wikikracja.Voting.Editing.History.{
  Owns, delete_guarded, may_edit, KeepsHistory, edit-KeepsHistory,
}
use wikikracja.Voting.Effects.{State, Images, apply_pending_referendum_effects}
use wikikracja.Voting.Effects.Catching.{IsAcknowledged, apply_pending_referendum_effects_catches_up}
use wikikracja.Tests.Data.{settings, moment, tables, world}

one_le : (d u : ℕ) → count_by (signed_by d u) (tables proposition []).podpisy ≤ 1
one_le d u = ground arith

tables-IsCounted : IsCounted (tables proposition [])
tables-IsCounted = record { unique = one_le; counts = (refl, tt) }

sign-IsCounted_example : IsCounted (sign settings moment 5 2 (tables proposition [])).1
sign-IsCounted_example = sign-IsCounted settings moment 5 2 (tables proposition []) tables-IsCounted

withdraw-IsCounted_example : IsCounted (withdraw settings 5 1 (tables proposition [])).1
withdraw-IsCounted_example =
    withdraw-IsCounted settings moment 5 1 (tables proposition []) tables-IsCounted

settings-InBounds : InBounds settings
settings-InBounds = record {
  podpisow = (omega arith, omega arith);
  zebranie = (omega arith, omega arith);
  dyskusja = (omega arith, omega arith);
  referendum = (omega arith, omega arith);
  archive = (omega arith, omega arith);
  delete = (omega arith, omega arith);
  documents = (omega arith, omega arith);
  acceptance = (omega arith, omega arith);
  inactive = (omega arith, omega arith);
}

-- One number below its bound, and one above.
abbrev proposal : Proposed
proposal = (Name.dyskusja, int (negsuc 4)) ∷ (Name.acceptance, int (pos 500)) ∷ []

apply_items-Keeps_example : Keeps (apply_items proposal settings)
apply_items-Keeps_example = apply_items-Keeps proposal settings settings-InBounds

abbrev form : Form
form = record {
  title = some (1 ∷ []);
  tresc = none;
  kara = none;
  uzasadnienie = none;
  znosi = none;
}

edit-KeepsHistory_example :
    ((edit moment 1 5 (post form) (tables proposition [])).1 ≡ tables proposition [])
      × ((find_decyzja 5 (tables proposition []).decyzje ≡ none)
          ⊎ ((i : Decyzja) × (find_decyzja 5 (tables proposition []).decyzje ≡ some i)
              × (may_edit 1 i ≡ false)))
    ⊎ ((i : Decyzja) × (find_decyzja 5 (tables proposition []).decyzje ≡ some i)
        × (may_edit 1 i ≡ true)
        × KeepsHistory 1 5 form i
            (tables proposition [])
            (edit moment 1 5 (post form) (tables proposition [])).1)
edit-KeepsHistory_example = edit-KeepsHistory moment 1 5 form (tables proposition [])

delete_guarded_example :
    ((delete_proposal 2 5 true (tables proposition [])).1 ≡ tables proposition [])
    ⊎ Owns 2 5 (tables proposition [])
delete_guarded_example = delete_guarded 2 5 true (tables proposition [])

abbrev effect : ReferendumEffect
effect = record { decision = 5; kind = buffer_ack; attempts = 0; failed = false; applied_at = none }

abbrev state : State
state = record { world = world proposition []; params = settings; site = none; logo = none }

-- Icons are never made.
abbrev images : Images
images = record { store = λ f. ok f; normalize = λ f. ok f; derive = λ f. some value_error }

-- The acknowledgement failed twice, after the proposed parameters of the same decision.
abbrev failing : State
failing = record state {
  world = record state.world {
    db = record state.world.db {
      effects =
          record effect { kind = parameters; attempts = 2; failed = true }
          ∷ record effect { attempts = 2; failed = true }
          ∷ [];
    };
  };
}

apply_pending_referendum_effects_catches_up_example :
    IsAcknowledged effect (apply_pending_referendum_effects [] images moment failing)
apply_pending_referendum_effects_catches_up_example =
    apply_pending_referendum_effects_catches_up [] images moment effect refl failing refl refl refl
