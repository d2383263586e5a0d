-- ===== src/Voting/Buffer.antt =====
-- glosowania/vote_buffer.py: the votes of open referenda, kept in Redis until the referendum closes.
-- The Lua script of a claim runs in Redis as one step.
pub mod Claim
pub mod Push
use wikikracja.Common.{
  ℕ, ◌+◌, Bool, true, false, ◌&&◌, Option, none, some, List, [], ◌∷◌, map, ok, err, redis_error,
  ◌==◌, if◌then◌else◌, length, assign, is_some, exists_by, bit,
}
use wikikracja.Voting.Model.{Ballot}
use wikikracja.Voting.World.{
  Field, op, legacy_entry, same_field, Hash, Redis, M, ◌>>=◌, ◌>>◌, pure, lift, set_redis,
}

unfoldable pub hget : Field → Hash → Option Ballot
hget k [] = none
hget k ((j, v) ∷ h) = if same_field k j then some v else hget k h

unfoldable pub hset : Field → Ballot → Hash → Hash
hset k v [] = (k, v) ∷ []
hset k v ((j, u) ∷ h) = if same_field k j then (k, v) ∷ h else (j, u) ∷ hset k v h

pub hdel : Field → Hash → Hash
hdel k [] = []
hdel k ((j, v) ∷ h) = if same_field k j then h else (j, v) ∷ hdel k h

-- `for index = 1, #current, 2 do HSET claim ... end`
pub hset_all : Hash → Hash → Hash
hset_all [] claim = claim
hset_all ((k, v) ∷ rest) claim = hset_all rest (hset k v claim)

-- `for index = 1, #legacy do HSET claim 'legacy:' .. (offset + index) ... end`
pub hset_legacy : ℕ → List Ballot → Hash → Hash
hset_legacy index [] claim = claim
hset_legacy index (v ∷ rest) claim =
    hset_legacy (index + 1) rest (hset (legacy_entry index) v claim)

-- The claim that the script leaves behind, and that HGETALL returns.
unfoldable pub merged : Hash → List Ballot → Hash → Hash
unfolding hset hset_all hset_legacy
merged current legacy claim =
    let claim' = hset_all current claim in hset_legacy (length claim' + 1) legacy claim'

-- Every command raises `RedisError` when Redis does not answer.
unfoldable pub connected : M Redis
connected w = (if w.redis.online then ok w.redis else err redis_error, w)

unfoldable pub claim_script : ℕ → Redis → Redis
unfolding merged
claim_script d r = record r {
  pending = assign r.pending d [];
  legacy = assign r.legacy d [];
  claimed = assign r.claimed d (merged (r.pending d) (r.legacy d) (r.claimed d));
}

pub claim_pending_votes : ℕ → M (List Ballot)
unfolding connected claim_script
claim_pending_votes d = do
  r ← connected
  set_redis (claim_script d r)
  pure (map (λ e. e.1) ((claim_script d r).claimed d))

abbrev pub same_payload : Ballot → Ballot → Bool
same_payload a b =
    a.code == b.code
    && (elim a.vote [ true ↦ b.vote | false ↦ elim b.vote [ true ↦ false | false ↦ true ] ])

-- `True` when the vote was queued, `False` when it was queued before.
unfoldable pub push_pending_vote : ℕ → ℕ → Ballot → M Bool
unfolding connected hget hset
push_pending_vote d operation payload = do
  r ← connected
  elim (hget (op operation) (r.pending d)) [
    | none ↦ do
      set_redis
          (record r { pending = assign r.pending d (hset (op operation) payload (r.pending d)) })
      pure true
    | some existing ↦ lift (if same_payload existing payload then ok false else err redis_error)
  ]

pub discard_pending_vote : ℕ → ℕ → M Bool
unfolding connected hdel hget
discard_pending_vote d operation = do
  r ← connected
  set_redis (record r { pending = assign r.pending d (hdel (op operation) (r.pending d)) })
  pure (is_some (hget (op operation) (r.pending d)))

unfoldable pub acknowledge_claimed_votes : ℕ → M Bool
unfolding connected
acknowledge_claimed_votes d = do
  r ← connected
  set_redis (record r { claimed = assign r.claimed d [] })
  pure (exists_by (λ _. true) (r.claimed d))

abbrev pub cleared : ℕ → Redis → Redis
cleared d r = record r {
  pending = assign r.pending d [];
  legacy = assign r.legacy d [];
  claimed = assign r.claimed d [];
}

-- The number of keys that were deleted.
pub clear_pending_votes : ℕ → M ℕ
unfolding connected
clear_pending_votes d = do
  r ← connected
  set_redis (cleared d r)
  pure (
      bit (exists_by (λ _. true) (r.pending d))
      + bit (exists_by (λ _. true) (r.legacy d))
      + bit (exists_by (λ _. true) (r.claimed d)))

pub pending_vote_count : ℕ → M ℕ
unfolding connected
pending_vote_count d = do
  r ← connected
  pure (length (r.pending d) + length (r.legacy d) + length (r.claimed d))
