-- ===== src/Voting/Buffer/Push.antt =====
-- Queueing and withdrawing a vote (glosowania/vote_buffer.py).
use wikikracja.Common.{
  ℕ, ◌+◌, ◌≡◌, refl, Bool, true, false, none, some, [], ◌∷◌, ok, err, redis_error, is_some, arith,
  bit, assign, ==_refl,
}
use mathlib.Core.Path.{fun_ext}
use wikikracja.Voting.Model.{Ballot}
use wikikracja.Voting.World.{World, Field, op, legacy_entry, same_field, Hash, Redis}
use wikikracja.Voting.Buffer.{
  hget, hset, hdel, push_pending_vote, discard_pending_vote, same_payload,
}
use wikikracja.Voting.Buffer.Claim.{votes, Apart, OpFields, IsValid, votes-hset_new, hget-hset}

same_payload_refl : (b : Ballot) → same_payload b b ≡ true
same_payload_refl b = ground (arith, ==_refl b.code)

hdel-hset : (k : Field) (v : Ballot) (h : Hash) → hget k h ≡ none → hdel k (hset k v h) ≡ h
unfolding hget hset hdel
hdel-hset (op n) v [] e = ground (arith, ==_refl n)
hdel-hset (legacy_entry n) v [] e = ground (arith, ==_refl n)
hdel-hset k v (x ∷ h) e = ground (arith, hdel-hset k v h)

OpFields-hset : (n : ℕ) (v : Ballot) (h : Hash) → OpFields h → OpFields (hset (op n) v h)
unfolding hset
OpFields-hset n v [] o = tt
OpFields-hset n v ((op m, u) ∷ h) o = ground (arith, OpFields-hset n v h o)
OpFields-hset n v ((legacy_entry m, u) ∷ h) o = absurd o

same_field-sym : (j k : Field) → same_field j k ≡ same_field k j
same_field-sym (op a) (op b) = ground arith
same_field-sym (op a) (legacy_entry b) = refl
same_field-sym (legacy_entry a) (op b) = refl
same_field-sym (legacy_entry a) (legacy_entry b) = ground arith

Apart-hset_new :
    (k : Field) (v : Ballot) (h c : Hash)
    → hget k h ≡ none
    → hget k c ≡ none
    → Apart h c
    → Apart (hset k v h) c
unfolding hget hset
Apart-hset_new k v [] c e f a = (f, refl, tt)
Apart-hset_new k v ((j, u) ∷ h) c e f a =
    ground (arith, hget-hset j k v h, same_field-sym j k, Apart-hset_new k v h c)

-- Redis after the vote `b` was queued for decision `d` under operation `n`.
abbrev pub queued : ℕ → ℕ → Ballot → Redis → Redis
queued d n b r = record r { pending = assign r.pending d (hset (op n) b (r.pending d)) }

abbrev pub dropped : ℕ → ℕ → Redis → Redis
dropped d n r = record r { pending = assign r.pending d (hdel (op n) (r.pending d)) }

module _ (d n : ℕ) (b : Ballot) (w : World) (up : w.redis.online ≡ true) where
  pub push_new :
      hget (op n) (w.redis.pending d) ≡ none
      → push_pending_vote d n b w ≡ (ok true, record w { redis = queued d n b w.redis })
  unfolding push_pending_vote
  push_new e = ground arith

  pub push_same :
      hget (op n) (w.redis.pending d) ≡ some b → push_pending_vote d n b w ≡ (ok false, w)
  unfolding push_pending_vote
  push_same e = ground (arith, same_payload_refl b)

  pub push_other :
      (b' : Ballot)
      → hget (op n) (w.redis.pending d) ≡ some b'
      → same_payload b' b ≡ false
      → push_pending_vote d n b w ≡ (err redis_error, w)
  unfolding push_pending_vote
  push_other b' e f = ground arith

  pub discard_run :
      discard_pending_vote d n w
      ≡ (ok (is_some (hget (op n) (w.redis.pending d))), record w { redis = dropped d n w.redis })
  unfolding discard_pending_vote
  discard_run = ground arith

module _ (d n : ℕ) (b : Ballot) (r : Redis) where
  pub queued_self : hget (op n) ((queued d n b r).pending d) ≡ some b
  queued_self = rw (==_refl d) (rw hget-hset (ground (arith, ==_refl n)))

  module _ (new : hget (op n) (r.pending d) ≡ none) where
    pub queued_counts :
        (p : Ballot → Bool)
        → votes p ((queued d n b r).pending d) ≡ votes p (r.pending d) + bit (p b)
    queued_counts p = rw (==_refl d) (votes-hset_new p (op n) b (r.pending d) new)

    pub queued-IsValid : hget (op n) (r.claimed d) ≡ none → IsValid d r → IsValid d (queued d n b r)
    queued-IsValid f v = record {
      apart = rw (==_refl d) (Apart-hset_new (op n) b (r.pending d) (r.claimed d) new f v.apart);
      fields = rw (==_refl d) (OpFields-hset n b (r.pending d) v.fields);
      bounded = v.bounded;
    }

    -- What was queued and withdrawn is as it was.
    pub dropped-queued : (dropped d n (queued d n b r)).pending d ≡ r.pending d
    dropped-queued = rw (==_refl d) (hdel-hset (op n) b (r.pending d) new)

    -- Queueing a vote under an operation id that is not queued, and withdrawing it, brings Redis back to
    -- what it was.
    pub redis-dropped-queued : dropped d n (queued d n b r) ≡ r
    redis-dropped-queued = λ i. record r { pending = fun_ext back i }
      where
        back : (j : ℕ) → (dropped d n (queued d n b r)).pending j ≡ r.pending j
        back j = ground (arith, ==_refl d, hdel-hset (op n) b (r.pending d) new)

hdel-absent : (k : Field) (h : Hash) → hget k h ≡ none → hdel k h ≡ h
unfolding hget hdel
hdel-absent k [] e = refl
hdel-absent k (x ∷ h) e = ground (arith, hdel-absent k h)

module _ (d n : ℕ) (r : Redis) (new : hget (op n) (r.pending d) ≡ none) where
  -- Withdrawing what was never queued changes nothing.
  pub redis-dropped_new : dropped d n r ≡ r
  redis-dropped_new = λ i. record r { pending = fun_ext back i }
    where
      back : (j : ℕ) → (dropped d n r).pending j ≡ r.pending j
      back j = ground (arith, hdel-absent (op n) (r.pending d) new)

module _ (d n : ℕ) (b : Ballot) (w : World) (up : w.redis.online ≡ true)
    (new : hget (op n) (w.redis.pending d) ≡ none) where
  -- With Redis answering: a vote that is queued under an operation id that is not queued, and then
  -- discarded, was there, and all is as it was.
  pub discard_pending_vote-push_pending_vote :
      discard_pending_vote d n (push_pending_vote d n b w).1 ≡ (ok true, w)
  discard_pending_vote-push_pending_vote = rw (push_new d n b w up new) (
      rw (discard_run d n b (record w { redis = queued d n b w.redis }) up)
        (rw (queued_self d n b w.redis) (rw (redis-dropped-queued d n b w.redis new) refl)))
