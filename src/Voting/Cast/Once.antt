-- ===== src/Voting/Cast/Once.antt =====
-- What the attempts to record a vote leave behind (glosowania/views.py, `_cast_vote`).
use wikikracja.Common.{
  ℕ, zero, suc, ◌≡◌, refl, ◌⊎◌, inl, inr, Bool, true, false, Option, none, some, ok, err, locked,
  integrity_error, operational, Result, arith,
}
use mathlib.Core.Path.{subst}
use mathlib.Core.Option.{some-injective}
use wikikracja.Voting.Model.{Ballot, Moment}
use wikikracja.Voting.World.{World, op, M}
use wikikracja.Voting.Buffer.{hget}
use wikikracja.Voting.Buffer.Push.{
  queued, push_new, push_same, discard_run, queued_self, redis-dropped-queued, redis-dropped_new,
}
use wikikracja.Voting.Cast.{
  Weather, calm, locked_at_read, locked_at_insert, locked_at_commit, raced, failing, CastAnswer,
  voted, refusal, with_glos, attempt, attempts, cast_vote, lost_race, recover, already_voted, after,
}

module _ (t : Moment) (user pk operation : ℕ) (b : Ballot) (w : World) (up : w.redis.online ≡ true)
    (new : hget (op operation) (w.redis.pending pk) ≡ none)
    (open_now : refusal t user pk w.db ≡ none) where
  -- The world with the entry in the buffer only, and with the voter recorded too.
  abbrev pub with_entry : World
  with_entry = record w { redis = queued pk operation b w.redis }

  abbrev pub with_vote : World
  with_vote = record w { redis = queued pk operation b w.redis; db = with_glos pk user w.db }

  -- How an attempt ends, and where, when it starts in `from`.
  abbrev ending : World → Weather → Result CastAnswer × World
  ending from calm = (ok (voted b.code), with_vote)
  ending from locked_at_read = (err locked, from)
  ending from locked_at_insert = (err locked, from)
  ending from locked_at_commit = (err locked, with_entry)
  ending from raced = (err integrity_error, from)
  ending from failing = (err operational, from)

  inserted : World
  inserted = record w { db = with_glos pk user w.db }

  attempt_first : (x : Weather) → attempt t x user pk operation b w ≡ ending w x
  unfolding attempt
  attempt_first calm =
      ground
        (arith, open_now, push_new pk operation b (record w { db = with_glos pk user w.db }) up new)
  attempt_first locked_at_read = refl
  attempt_first locked_at_insert = ground (arith, open_now)
  attempt_first locked_at_commit =
      ground
        (arith, open_now, push_new pk operation b (record w { db = with_glos pk user w.db }) up new)
  attempt_first raced = ground (arith, open_now)
  attempt_first failing = refl

  attempt_later : (x : Weather) → attempt t x user pk operation b with_entry ≡ ending with_entry x
  unfolding attempt
  attempt_later calm =
      ground (
        arith,
        open_now,
        push_same pk operation b with_vote up (queued_self pk operation b w.redis),
      )
  attempt_later locked_at_read = refl
  attempt_later locked_at_insert = ground (arith, open_now)
  attempt_later locked_at_commit =
      ground (
        arith,
        open_now,
        push_same pk operation b with_vote up (queued_self pk operation b w.redis),
      )
  attempt_later raced = ground (arith, open_now)
  attempt_later failing = refl

  module _ (schedule : ℕ → Weather) where
    -- Whether the entry is queued without its voter, which takes a commit that failed.
    abbrev pub Seen : Bool → Type 0
    Seen false = Unit
    Seen true = (k : ℕ) × (schedule k ≡ locked_at_commit)

    abbrev pub place : Bool → World
    place false = w
    place true = with_entry

    -- A vote and its voter are recorded together; a refusal or an error leaves all as it was, but for
    -- a vote that stays queued without its voter where some commit failed.
    abbrev pub Settled : Result CastAnswer × World → Type 0
    Settled (ok a, w') = ((a ≡ voted b.code) × (w' ≡ with_vote)) ⊎ ((a ≡ already_voted) × (w' ≡ w))
    Settled (err e, w') = (x : Bool) × Seen x × (w' ≡ place x)

    lost_race_ends : (x : Bool) → lost_race pk operation (place x) ≡ (ok already_voted, w)
    unfolding lost_race
    lost_race_ends false =
        ground (arith, discard_run pk operation b w up, redis-dropped_new pk operation w.redis new)
    lost_race_ends true = ground (
      arith,
      discard_run pk operation b with_entry up,
      redis-dropped-queued pk operation b w.redis new,
    )

    attempt_ends :
        (x : Bool) (y : Weather) → attempt t y user pk operation b (place x) ≡ ending (place x) y
    attempt_ends false y = attempt_first y
    attempt_ends true y = attempt_later y

    -- One attempt and its handler, given what the attempts after it do.
    step-Settled :
        (again : Option (M CastAnswer)) (k : ℕ) (y : Weather) (x : Bool)
        → schedule k ≡ y
        → Seen x
        → ((m : M CastAnswer) (z : Bool) → again ≡ some m → Seen z → Settled (m (place z)))
        → Settled (after (ending (place x) y) (recover pk operation again))
    unfolding recover
    step-Settled again k calm x e s f = inl (refl, refl)
    step-Settled (some m) k locked_at_read x e s f = f m x refl s
    step-Settled none k locked_at_read x e s f = (x, s, refl)
    step-Settled (some m) k locked_at_insert x e s f = f m x refl s
    step-Settled none k locked_at_insert x e s f = (x, s, refl)
    step-Settled (some m) k locked_at_commit x e s f = f m true refl (k, e)
    step-Settled none k locked_at_commit x e s f = (true, (k, e), refl)
    step-Settled again k raced x e s f = rw lost_race_ends (inr (refl, refl))
    step-Settled again k failing x e s f = (x, s, refl)

    attempts-Settled :
        (n k : ℕ) (x : Bool)
        → Seen x
        → Settled (attempts n k t schedule user pk operation b (place x))
    unfolding attempts
    attempts-Settled zero k x s =
        rw attempt_ends (step-Settled none k (schedule k) x refl s (λ m z e s'. cc))
    attempts-Settled (suc n) k x s = rw attempt_ends (
        step-Settled (some (attempts n (suc k) t schedule user pk operation b)) k (schedule k) x
          refl s
          (λ m z e s'.
            subst (λ (m' : M CastAnswer). Settled (m' (place z))) (some-injective _ _ e)
              (attempts-Settled n (suc k) z s')))

    -- With Redis answering, an operation id that is not queued, and a decision that takes the user's
    -- vote: however the attempts go, either the vote is answered and recorded in Redis and SQL, or
    -- "already voted" is answered and nothing changed, or an error is raised and nothing changed but for
    -- a vote that stays queued without its voter, which takes an attempt that failed at its commit.
    pub cast_vote-Settled : Settled (cast_vote t schedule user pk operation b w)
    unfolding cast_vote
    cast_vote-Settled = attempts-Settled 2 0 false tt

  -- With Redis answering, an operation id that is not queued, and a decision that takes the user's
  -- vote: when every attempt fails at its commit, the request raises and leaves the vote in the buffer
  -- without its voter.
  pub cast_vote_orphans :
      cast_vote t (λ _. locked_at_commit) user pk operation b w ≡ (err locked, with_entry)
  unfolding cast_vote attempts recover
  cast_vote_orphans = rw attempt_first (rw attempt_later (rw attempt_later))
