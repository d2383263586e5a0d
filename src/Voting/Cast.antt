-- ===== src/Voting/Cast.antt =====
-- Casting a vote (glosowania/views.py, `_cast_vote` and the votes in `details`). What SQLite does to
-- each attempt comes from outside, as a schedule; no other request runs between two attempts.
pub mod Once
pub mod Balance
use wikikracja.Common.{
  ℕ, zero, suc, ◌+◌, Bool, true, false, ◌&&◌, Option, none, some, List, [], ◌∷◌, ◌++◌, ok, err,
  ◌==◌, if◌then◌else◌, ltb, exists_by, does_not_exist, type_error, value_error, redis_error,
  integrity_error, locked, operational, Error, Result,
}
use wikikracja.Voting.Model.{Decyzja, Glos, Ballot, Db, Moment, referendum, find_decyzja}
use wikikracja.Voting.World.{World, M, ◌>>=◌, ◌>>◌, pure, raise, lift, atomic, modify_db}
use wikikracja.Voting.Buffer.{push_pending_vote, discard_pending_vote}
use wikikracja.Voting.Tables.{same_status, voted_by}

-- How an attempt goes: it commits, SQLite reports a lock when the decision is read, at the insert or
-- at the commit, another request wins the unique constraint, or another database error comes up.
pub data Weather : Type 0 where
  calm locked_at_read locked_at_insert locked_at_commit raced failing : Weather

pub data CastAnswer : Type 0 where
  voted : ℕ → CastAnswer
  no_decision not_open already_voted unavailable : CastAnswer

at_read : Weather → Result (Unit {0})
at_read locked_at_read = err locked
at_read failing = err operational
at_read _ = ok tt

at_insert : Weather → Result (Unit {0})
at_insert locked_at_insert = err locked
at_insert raced = err integrity_error
at_insert _ = ok tt

at_commit : Weather → Result (Unit {0})
at_commit locked_at_commit = err locked
at_commit _ = ok tt

-- `data_referendum_stop and data_referendum_stop < localdate()`
past : Option ℕ → ℕ → Bool
past none today = false
past (some stop) today = ltb stop today

-- Why the decision takes no vote of the user, if it does not.
unfoldable pub refusal : Moment → ℕ → ℕ → Db → Option CastAnswer
unfolding past
refusal t user pk db = elim (find_decyzja pk db.decyzje) [
  | none ↦ some no_decision
  | some i ↦
      if same_status i.status referendum
      then if past i.data_referendum_stop t.today
        then some not_open
        else if exists_by (voted_by pk user) db.glosy
        then some already_voted
        else none
      else some not_open
]

abbrev pub with_glos : ℕ → ℕ → Db → Db
with_glos pk user db = record db {
  glosy = db.glosy ++ record { projekt = pk; kto = some user } ∷ [];
}

-- The rest of an attempt, once the decision takes the vote.
insert_and_push : Weather → ℕ → ℕ → ℕ → Ballot → M CastAnswer
unfolding at_insert at_commit
insert_and_push weather user pk operation b = do
  lift (at_insert weather)
  modify_db (with_glos pk user)
  push_pending_vote pk operation b
  lift (at_commit weather)
  pure (voted b.code)

answer_or : Option CastAnswer → M CastAnswer → M CastAnswer
answer_or (some a) m = pure a
answer_or none m = m

-- One pass of the body of the loop, up to the end of the transaction.
attempt : Moment → Weather → ℕ → ℕ → ℕ → Ballot → M CastAnswer
unfolding at_read insert_and_push answer_or
attempt t weather user pk operation b w =
    atomic
      (do
        lift (at_read weather)
        answer_or (refusal t user pk w.db) (insert_and_push weather user pk operation b))
      w

-- `except IntegrityError`: this request's entry is taken back.
lost_race : ℕ → ℕ → M CastAnswer
lost_race pk operation = do discard_pending_vote pk operation; pure already_voted

-- The handlers, by the exception; `again` is the next attempt, if one is left.
recover : ℕ → ℕ → Option (M CastAnswer) → Error → M CastAnswer
unfolding lost_race
recover pk operation again integrity_error = lost_race pk operation
recover pk operation (some again) locked = again
recover pk operation none locked = raise locked
recover pk operation again e = raise e

abbrev pub after : Result CastAnswer × World → (Error → M CastAnswer) → Result CastAnswer × World
after (ok a, w) handler = (ok a, w)
after (err e, w) handler = handler e w

on_error : M CastAnswer → (Error → M CastAnswer) → M CastAnswer
on_error m handler w = after (m w) handler

-- `n` more attempts after this one; `k` is the number of this attempt.
attempts : ℕ → ℕ → Moment → (ℕ → Weather) → ℕ → ℕ → ℕ → Ballot → M CastAnswer
unfolding attempt recover on_error
attempts zero k t weather user pk operation b =
    on_error (attempt t (weather k) user pk operation b) (recover pk operation none)
attempts (suc n) k t weather user pk operation b =
    on_error (attempt t (weather k) user pk operation b)
      (recover pk operation (some (attempts n (suc k) t weather user pk operation b)))

-- `_cast_vote`: `max_retries` is 3.
unfoldable pub cast_vote : Moment → (ℕ → Weather) → ℕ → ℕ → ℕ → Ballot → M CastAnswer
unfolding attempts
cast_vote = attempts 2 0

-- `_handle_locked_vote`; a lookup that raises counts as no vote.
handle_locked : Bool → ℕ → ℕ → M CastAnswer
handle_locked answers user pk w = (
  ok (if answers && exists_by (voted_by pk user) w.db.glosy then already_voted else unavailable),
  w,
)

-- The requests `tak` and `nie`: what `details` catches; `answers` tells whether SQLite answers then.
handle_vote_error : Bool → ℕ → ℕ → Error → M CastAnswer
unfolding handle_locked
handle_vote_error answers user pk redis_error = pure unavailable
handle_vote_error answers user pk locked = handle_locked answers user pk
handle_vote_error answers user pk e = raise e

pub vote_request : Moment → (ℕ → Weather) → Bool → ℕ → ℕ → ℕ → Ballot → M CastAnswer
unfolding handle_vote_error on_error
vote_request t weather answers user pk operation b =
    on_error (cast_vote t weather user pk operation b) (handle_vote_error answers user pk)
