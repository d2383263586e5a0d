-- ===== src/Tests/Runs.antt =====
-- A referendum from its opening to its closing run.
use wikikracja.Common.{ℕ, zero, suc, ◌≡◌, ◌≢◌, refl, true, some, [], ◌∷◌, ok, ltb, if◌then◌else◌}
use mathlib.Core.List.Perm
use wikikracja.Voting.Model.{
  referendum, referendum_label, find_decyzja, Decyzja, approved, rejected,
}
use wikikracja.Voting.World.{World}
use wikikracja.Voting.Buffer.{hget, claim_script, push_pending_vote}
use wikikracja.Voting.Cast.{Weather, calm, locked_at_insert, locked_at_commit, cast_vote, refusal}
use wikikracja.Voting.Nightly.{close, says_yes, says_no}
use wikikracja.Voting.Nightly.Tally.{IsBalanced}
use wikikracja.Voting.Runs.{Reachable, reachable-close, buffered}
use wikikracja.Tests.Data.{settings, moment, decision, tables, yes_vote}

abbrev quiet : World
quiet = record {
  db = tables referendum [];
  redis = record { online = true; pending = λ _. []; legacy = λ _. []; claimed = λ _. [] };
  signals = [];
}

abbrev once_locked : ℕ → Weather
once_locked zero = locked_at_insert
once_locked (suc k) = calm

never_at_commit : (k : ℕ) → once_locked k ≢ locked_at_commit
never_at_commit zero e = cc
never_at_commit (suc k) e = cc

-- User 9 votes, and a run claims the vote and fails.
abbrev claimed_once : World
claimed_once =
    let w = (cast_vote moment once_locked 9 5 8 yes_vote quiet).1 in
    record w { redis = claim_script 5 w.redis }

claimed_once-Reachable : Reachable 5 claimed_once
unfolding hget refusal
claimed_once-Reachable =
    Reachable.claim_only (cast_vote moment once_locked 9 5 8 yes_vote quiet).1 (
      Reachable.voted_in moment 9 8 yes_vote quiet once_locked refl refl refl refl never_at_commit
        (Reachable.opened quiet refl refl refl refl))

reachable-close_example :
    let (r, w') = close (λ xs. xs) settings moment (decision referendum) claimed_once in
    (r ≡ ok tt)
    × IsBalanced 5 claimed_once
    × ((d : Decyzja) × (find_decyzja 5 w'.db.decyzje ≡ some d)
        × (d.za ≡ buffered says_yes 5 claimed_once)
        × (d.przeciw ≡ buffered says_no 5 claimed_once)
        × (d.status ≡ (
            if ltb (buffered says_no 5 claimed_once) (buffered says_yes 5 claimed_once)
            then approved
            else rejected)))
unfolding cast_vote claim_script push_pending_vote refusal
reachable-close_example =
    reachable-close (λ xs. xs) (λ xs. Perm.refl xs) settings moment (decision referendum)
      claimed_once claimed_once-Reachable refl refl (referendum_label ∷ []) refl refl
