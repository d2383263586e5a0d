-- ===== src/Tests/Votes.antt =====
-- Runs of the buffer of votes, of casting votes and of closing a referendum.
use mathlib.Core.List.Perm
use wikikracja.Common.{
  ℕ, zero, suc, ◌≡◌, refl, true, ◌+◌, none, some, [], ◌∷◌, arith, ok, err, locked, count_by, ◌≢◌,
}
use wikikracja.Voting.Model.{
  referendum, referendum_label, find_decyzja, Decyzja, approved, find_decyzja,
}
use wikikracja.Voting.World.{op, World}
use wikikracja.Voting.Buffer.{push_pending_vote, discard_pending_vote, claim_script, hget}
use wikikracja.Voting.Buffer.Claim.{votes, IsValid, claim_script_counts}
use wikikracja.Voting.Tables.{votes_on, stamped}
use wikikracja.Voting.Nightly.{close, restarted}
use wikikracja.Voting.Nightly.Tally.{IsBalanced, close_tallies, close_restarts}
use wikikracja.Voting.Cast.{Weather, calm, locked_at_insert, locked_at_commit, cast_vote, refusal}
use wikikracja.Voting.Cast.Once.{Settled, with_entry, cast_vote-Settled, cast_vote_orphans}
use wikikracja.Voting.Cast.Balance.{cast_vote_balance}
use wikikracja.Voting.Buffer.Push.{discard_pending_vote-push_pending_vote}
use wikikracja.Tests.Data.{settings, moment, decision, buffer, world, yes_vote, no_vote}

buffer-IsValid : IsValid 5 buffer
unfolding hget
buffer-IsValid = record { apart = (refl, refl, tt); fields = tt; bounded = tt }

claim_script_counts_example :
    votes (λ b. b.vote) ((claim_script 5 buffer).claimed 5)
    ≡ votes (λ b. b.vote) (buffer.claimed 5)
      + votes (λ b. b.vote) (buffer.pending 5)
      + count_by (λ b. b.vote) (buffer.legacy 5)
claim_script_counts_example = claim_script_counts 5 buffer buffer-IsValid (λ b. b.vote)

-- Three voters, and three votes in the buffer.
abbrev full : World
full = world referendum (2 ∷ 3 ∷ 4 ∷ [])

-- The same with a voter whose vote was lost.
abbrev lossy : World
lossy = world referendum (2 ∷ 3 ∷ 4 ∷ 9 ∷ [])

close_tallies_example :
    let (r, w') = close (λ xs. xs) settings moment (decision referendum) full in
    (r ≡ ok tt)
    × ((d : Decyzja) × (find_decyzja 5 w'.db.decyzje ≡ some d)
        × (d.za ≡ 2)
        × (d.przeciw ≡ 1)
        × (d.status ≡ approved))
close_tallies_example =
    close_tallies (λ xs. xs) (λ xs. Perm.refl xs) settings moment (decision referendum) full refl
      buffer-IsValid refl (referendum_label ∷ []) refl refl refl

four_three : ¬ (◌≡◌ {A = ℕ} 4 3)
four_three e = omega (arith, e)

is_lossy : ¬ IsBalanced 5 lossy
is_lossy e = four_three e

close_restarts_example :
    let (r, w') = close (λ xs. xs) settings moment (decision referendum) lossy in
    (r ≡ ok tt)
    × (find_decyzja 5 w'.db.decyzje
        ≡ some (stamped moment (restarted settings moment (decision referendum))))
    × (w'.db.codes ≡ lossy.db.codes)
    × (count_by (votes_on 5) w'.db.glosy ≡ 0)
    × (w'.redis.pending 5 ≡ [])
    × (w'.redis.legacy 5 ≡ [])
    × (w'.redis.claimed 5 ≡ [])
close_restarts_example =
    close_restarts (λ xs. xs) (λ xs. Perm.refl xs) settings moment (decision referendum) lossy refl
      buffer-IsValid refl is_lossy

is_new : hget (op 8) (buffer.pending 5) ≡ none
unfolding hget
is_new = refl

is_unclaimed : hget (op 8) (buffer.claimed 5) ≡ none
unfolding hget
is_unclaimed = refl

takes_vote : refusal moment 9 5 full.db ≡ none
unfolding refusal
takes_vote = refl

-- A lock at the first attempt, and none afterwards.
abbrev once_locked : ℕ → Weather
once_locked zero = locked_at_insert
once_locked (suc k) = calm

never_at_commit : (k : ℕ) → once_locked k ≢ locked_at_commit
never_at_commit zero e = cc
never_at_commit (suc k) e = cc

cast_vote-Settled_example :
    Settled moment 9 5 8 yes_vote full refl is_new takes_vote once_locked
      (cast_vote moment once_locked 9 5 8 yes_vote full)
cast_vote-Settled_example =
    cast_vote-Settled moment 9 5 8 yes_vote full refl is_new takes_vote once_locked

cast_vote_orphans_example :
    cast_vote moment (λ _. locked_at_commit) 9 5 8 yes_vote full
    ≡ (err locked, with_entry moment 9 5 8 yes_vote full refl is_new takes_vote)
cast_vote_orphans_example = cast_vote_orphans moment 9 5 8 yes_vote full refl is_new takes_vote

cast_vote_balance_example :
    IsValid 5 (cast_vote moment once_locked 9 5 8 yes_vote full).1.redis
    × IsBalanced 5 (cast_vote moment once_locked 9 5 8 yes_vote full).1
cast_vote_balance_example =
    cast_vote_balance moment 9 5 8 yes_vote full refl is_new takes_vote is_unclaimed buffer-IsValid
      refl once_locked never_at_commit

discard_pending_vote-push_pending_vote_example :
    discard_pending_vote 5 8 (push_pending_vote 5 8 no_vote full).1 ≡ (ok true, full)
discard_pending_vote-push_pending_vote_example =
    discard_pending_vote-push_pending_vote 5 8 no_vote full refl is_new
