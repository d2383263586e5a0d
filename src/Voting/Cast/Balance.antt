-- ===== src/Voting/Cast/Balance.antt =====
-- Recorded voters and queued votes while votes are cast (glosowania/views.py and
-- glosowania/vote_buffer.py).
use wikikracja.Common.{
  ℕ, suc, ◌≡◌, ◌≢◌, inl, inr, true, false, none, ok, err, Result, arith, ==_refl, length,
  count_by-append,
}
use wikikracja.Voting.Model.{Ballot, Moment}
use wikikracja.Voting.World.{World, op}
use wikikracja.Voting.Buffer.{hget}
use wikikracja.Voting.Buffer.Claim.{IsValid, votes_true}
use wikikracja.Voting.Buffer.Push.{queued, queued-IsValid, queued_counts}
use wikikracja.Voting.Cast.{Weather, locked_at_commit, CastAnswer, refusal, cast_vote}
use wikikracja.Voting.Cast.Once.{with_vote, Settled, cast_vote-Settled}
use wikikracja.Voting.Nightly.Tally.{IsBalanced}

module _ (t : Moment) (user pk operation : ℕ) (b : Ballot) (w : World) (up : w.redis.online ≡ true)
    (new : hget (op operation) (w.redis.pending pk) ≡ none)
    (open_now : refusal t user pk w.db ≡ none)
    (unclaimed : hget (op operation) (w.redis.claimed pk) ≡ none) (valid : IsValid pk w.redis)
    (balanced : IsBalanced pk w) (schedule : ℕ → Weather)
    (commits : (k : ℕ) → schedule k ≢ locked_at_commit) where
  length-queued :
      length ((queued pk operation b w.redis).pending pk) ≡ suc (length (w.redis.pending pk))
  length-queued = omega (
    arith,
    queued_counts pk operation b w.redis new (λ _. true),
    votes_true (w.redis.pending pk),
    votes_true ((queued pk operation b w.redis).pending pk),
  )

  abbrev Sound : World → Type 0
  Sound w' = IsValid pk w'.redis × IsBalanced pk w'

  with_vote-Sound : Sound (with_vote t user pk operation b w up new open_now)
  with_vote-Sound = (
    queued-IsValid pk operation b w.redis new unclaimed valid,
    rw count_by-append (ground (arith, length-queued, ==_refl pk)),
  )

  Settled-Sound :
      (r : Result CastAnswer × World)
      → Settled t user pk operation b w up new open_now schedule r
      → Sound r.1
  Settled-Sound (ok a, w') (inl (_, e)) = rw e with_vote-Sound
  Settled-Sound (ok a, w') (inr (_, e)) = rw e (valid, balanced)
  Settled-Sound (err x, w') (false, _, e) = rw e (valid, balanced)
  Settled-Sound (err x, w') (true, (k, bad), e) = absurd (commits k bad)

  -- With Redis answering, an operation id that is neither queued nor claimed, a decision that takes
  -- the user's vote, and no commit that fails: a request to vote keeps a valid buffer valid, and as
  -- many votes in it as there are recorded voters, however often SQLite is locked or a race is lost.
  pub cast_vote_balance :
      IsValid pk (cast_vote t schedule user pk operation b w).1.redis
      × IsBalanced pk (cast_vote t schedule user pk operation b w).1
  cast_vote_balance =
      Settled-Sound (cast_vote t schedule user pk operation b w)
        (cast_vote-Settled t user pk operation b w up new open_now schedule)
