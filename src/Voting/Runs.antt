-- ===== src/Voting/Runs.antt =====
-- A referendum from its opening on: votes are cast, and runs of the nightly command may fail after
-- they claimed the votes (glosowania/views.py, glosowania/management/commands/vote.py).
use mathlib.Core.List.{Perm}
use wikikracja.Common.{
  ℕ, ◌+◌, ◌≡◌, ◌≢◌, refl, Bool, true, none, some, List, [], ok, arith, count_by, ltb, if◌then◌else◌,
}
use wikikracja.Settings.Params.{SiteParameters}
use wikikracja.Voting.Model.{Ballot, Decyzja, Moment, find_decyzja, Label, approved, rejected}
use wikikracja.Voting.World.{World, op}
use wikikracja.Voting.Buffer.{hget, claim_script}
use wikikracja.Voting.Buffer.Claim.{
  votes, IsValid, claim_script-IsValid, pending-claim_script, legacy-claim_script, length-claimed,
}
use wikikracja.Voting.Tables.{votes_on}
use wikikracja.Voting.Cast.{Weather, locked_at_commit, refusal, cast_vote}
use wikikracja.Voting.Cast.Balance.{cast_vote_balance}
use wikikracja.Voting.Nightly.{close, says_yes, says_no}
use wikikracja.Voting.Nightly.Tally.{IsBalanced, close_tallies}

-- What may happen before a referendum is closed. Each request has an operation id of its own, and no
-- commit fails.
pub data Reachable (pk : ℕ) : World → Type 0 where
  opened :
      (w : World)
      → count_by (votes_on pk) w.db.glosy ≡ 0
      → w.redis.pending pk ≡ []
      → w.redis.legacy pk ≡ []
      → w.redis.claimed pk ≡ []
      → Reachable pk w
  voted_in :
      (t : Moment) (user operation : ℕ) (b : Ballot) (w : World) (schedule : ℕ → Weather)
      → w.redis.online ≡ true
      → hget (op operation) (w.redis.pending pk) ≡ none
      → hget (op operation) (w.redis.claimed pk) ≡ none
      → refusal t user pk w.db ≡ none
      → ((k : ℕ) → schedule k ≢ locked_at_commit)
      → Reachable pk w
      → Reachable pk (cast_vote t schedule user pk operation b w).1
  claim_only :
      (w : World) → Reachable pk w → Reachable pk (record w { redis = claim_script pk w.redis })

abbrev Sound : ℕ → World → Type 0
Sound pk w = IsValid pk w.redis × IsBalanced pk w

opened-Sound :
    (pk : ℕ) (w : World)
    → count_by (votes_on pk) w.db.glosy ≡ 0
    → w.redis.pending pk ≡ []
    → w.redis.legacy pk ≡ []
    → w.redis.claimed pk ≡ []
    → Sound pk w
opened-Sound pk w n p l c = (
  record { apart = rw p tt; fields = rw p tt; bounded = rw c tt },
  rw n (rw p (rw l (rw c refl))),
)

claim-Sound :
    (pk : ℕ) (w : World) → Sound pk w → Sound pk (record w { redis = claim_script pk w.redis })
claim-Sound pk w (v, b) = (
  claim_script-IsValid pk w.redis v,
  rw (pending-claim_script pk w.redis)
      (rw (legacy-claim_script pk w.redis) (omega (arith, b, length-claimed pk w.redis v))),
)

run-Sound : (pk : ℕ) (w : World) → Reachable pk w → Sound pk w
run-Sound pk w (opened _ n p l c) = opened-Sound pk w n p l c
run-Sound pk _ (voted_in t user operation b w schedule up new unclaimed open_now commits r) =
    cast_vote_balance t user pk operation b w up new open_now unclaimed (run-Sound pk w r).0
      (run-Sound pk w r).1 schedule commits
run-Sound pk _ (claim_only w r) = claim-Sound pk w (run-Sound pk w r)

-- The votes of a referendum in the buffer, wherever they are.
abbrev pub buffered : (Ballot → Bool) → ℕ → World → ℕ
buffered p pk w =
    votes p (w.redis.claimed pk) + votes p (w.redis.pending pk) + count_by p (w.redis.legacy pk)

-- From the opening of a referendum on, whatever votes are cast and however often a run fails after its
-- claim: as long as each request has its own operation id, no commit fails and Redis answers, the
-- closing run of a decision that has a path and abolishes nothing gives it exactly the votes that the
-- buffer holds, one for each recorded voter, approves it when more are for it than against it, and
-- rejects it otherwise.
pub reachable-close :
    (shuffle : List Ballot → List Ballot) (shuffle_perm : (xs : List Ballot) → Perm (shuffle xs) xs)
    (sp : SiteParameters) (t : Moment) (i : Decyzja) (w : World)
    → Reachable i.id w
    → w.redis.online ≡ true
    → find_decyzja i.id w.db.decyzje ≡ some i
    → (labels : List Label) → i.path ≡ some labels
    → i.znosi ≡ none
    → let (r, w') = close shuffle sp t i w in
      (r ≡ ok tt)
      × IsBalanced i.id w
      × ((d : Decyzja) × (find_decyzja i.id w'.db.decyzje ≡ some d)
          × (d.za ≡ buffered says_yes i.id w)
          × (d.przeciw ≡ buffered says_no i.id w)
          × (d.status ≡ (
              if ltb (buffered says_no i.id w) (buffered says_yes i.id w)
              then approved
              else rejected)))
reachable-close shuffle shuffle_perm sp t i w r up row labels path_known abolishes_nothing =
    let s = run-Sound i.id w r in
    let c =
      close_tallies shuffle shuffle_perm sp t i w up s.0 row labels path_known abolishes_nothing
        s.1 in
    (c.0, s.1, c.1)
