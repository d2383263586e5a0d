-- ===== src/Voting/Buffer/Claim.antt =====
-- Claims of the vote buffer (glosowania/vote_buffer.py, the Lua script): which votes they hold.
use wikikracja.Common.{
  ℕ, suc, ◌+◌, ◌<◌, ◌≤◌, ◌≡◌, refl, Bool, true, none, some, List, [], ◌∷◌, map, arith, length,
  count_by, exists_by, ok, bit, ==_refl, if◌then◌else◌,
}
use wikikracja.Voting.Model.{Ballot}
use wikikracja.Voting.World.{World, Field, op, legacy_entry, same_field, Hash, Redis}
use wikikracja.Voting.Buffer.{
  hget, hset, hset_all, hset_legacy, merged, claim_script, claim_pending_votes, clear_pending_votes,
  cleared,
}

-- The entries of a hash whose ballot passes a test.
abbrev pub votes : (Ballot → Bool) → Hash → ℕ
votes p = count_by (λ e. p e.1)

-- The fields of the first hash are distinct, and none of them is in the second.
abbrev pub Apart : Hash → Hash → Type 0
Apart [] c = Unit
Apart ((k, v) ∷ h) c = (hget k c ≡ none) × (hget k h ≡ none) × Apart h c

-- Only operation ids, as `push_pending_vote` writes them.
abbrev pub OpFields : Hash → Type 0
OpFields [] = Unit
OpFields ((op _, v) ∷ h) = OpFields h
OpFields ((legacy_entry _, v) ∷ h) = ⊥

pub votes-hset_new :
    (p : Ballot → Bool) (k : Field) (v : Ballot) (h : Hash)
    → hget k h ≡ none
    → votes p (hset k v h) ≡ votes p h + bit (p v)
unfolding hget hset
votes-hset_new p k v [] e = ground arith
votes-hset_new p k v (x ∷ h) e = ground (arith, votes-hset_new p k v h)

same_field-eq : (j k : Field) → same_field j k ≡ true → j ≡ k
same_field-eq (op a) (op b) e = ground arith
same_field-eq (op a) (legacy_entry b) e = cc
same_field-eq (legacy_entry a) (op b) e = cc
same_field-eq (legacy_entry a) (legacy_entry b) e = ground arith

same_field_refl : (k : Field) → same_field k k ≡ true
same_field_refl (op a) = ground arith
same_field_refl (legacy_entry a) = ground arith

pub hget-hset :
    (j k : Field) (v : Ballot) (h : Hash)
    → hget j (hset k v h) ≡ (if same_field j k then some v else hget j h)
unfolding hget hset
hget-hset j k v [] = refl
hget-hset j k v ((i, u) ∷ h) = ground (
  arith,
  same_field-eq j k,
  same_field-eq k i,
  same_field-eq j i,
  same_field_refl k,
  same_field_refl j,
  hget-hset j k v h,
)

Apart-hset :
    (k : Field) (v : Ballot) (h c : Hash) → hget k h ≡ none → Apart h c → Apart h (hset k v c)
unfolding hget
Apart-hset k v [] c e a = tt
Apart-hset k v ((j, u) ∷ h) c e a =
    ground (arith, hget-hset j k v c, same_field-eq j k, same_field_refl j, Apart-hset k v h c)

votes-hset_all :
    (p : Ballot → Bool) (h c : Hash) → Apart h c → votes p (hset_all h c) ≡ votes p c + votes p h
unfolding hset_all
votes-hset_all p [] c a = omega arith
votes-hset_all p ((k, v) ∷ h) c a = ground (
  arith,
  votes-hset_all p h (hset k v c) (Apart-hset k v h c a.1 a.2),
  votes-hset_new p k v c a.0,
)

-- A hash with the field `legacy:n` only for n up to `b`.
abbrev pub LegacyUpTo : ℕ → Hash → Type 0
LegacyUpTo b [] = Unit
LegacyUpTo b ((op _, v) ∷ h) = LegacyUpTo b h
LegacyUpTo b ((legacy_entry n, v) ∷ h) = (n ≤ b) × LegacyUpTo b h

LegacyUpTo-mono : (b b' : ℕ) (h : Hash) → b ≤ b' → LegacyUpTo b h → LegacyUpTo b' h
LegacyUpTo-mono b b' [] le l = tt
LegacyUpTo-mono b b' ((op _, v) ∷ h) le l = LegacyUpTo-mono b b' h le l
LegacyUpTo-mono b b' ((legacy_entry n, v) ∷ h) le l = (omega arith, LegacyUpTo-mono b b' h le l.1)

hget-legacy_new : (b n : ℕ) (h : Hash) → LegacyUpTo b h → b < n → hget (legacy_entry n) h ≡ none
unfolding hget
hget-legacy_new b n [] l lt = refl
hget-legacy_new b n ((op _, v) ∷ h) l lt = hget-legacy_new b n h l lt
hget-legacy_new b n ((legacy_entry m, v) ∷ h) l lt = ground (arith, hget-legacy_new b n h l.1 lt)

LegacyUpTo-hset_op :
    (b k : ℕ) (v : Ballot) (h : Hash) → LegacyUpTo b h → LegacyUpTo b (hset (op k) v h)
unfolding hset
LegacyUpTo-hset_op b k v [] l = tt
LegacyUpTo-hset_op b k v ((op j, u) ∷ h) l = ground (arith, LegacyUpTo-hset_op b k v h l)
LegacyUpTo-hset_op b k v ((legacy_entry m, u) ∷ h) l = (l.0, LegacyUpTo-hset_op b k v h l.1)

LegacyUpTo-hset_legacy :
    (b n : ℕ) (v : Ballot) (h : Hash)
    → n ≤ b
    → LegacyUpTo b h
    → LegacyUpTo b (hset (legacy_entry n) v h)
unfolding hset
LegacyUpTo-hset_legacy b n v [] le l = (le, tt)
LegacyUpTo-hset_legacy b n v ((op j, u) ∷ h) le l = LegacyUpTo-hset_legacy b n v h le l
LegacyUpTo-hset_legacy b n v ((legacy_entry m, u) ∷ h) le l =
    ground (arith, LegacyUpTo-hset_legacy b n v h le l.1)

LegacyUpTo-hset_all :
    (b : ℕ) (h c : Hash) → OpFields h → LegacyUpTo b c → LegacyUpTo b (hset_all h c)
unfolding hset_all
LegacyUpTo-hset_all b [] c o l = l
LegacyUpTo-hset_all b ((op k, v) ∷ h) c o l =
    LegacyUpTo-hset_all b h (hset (op k) v c) o (LegacyUpTo-hset_op b k v c l)
LegacyUpTo-hset_all b ((legacy_entry k, v) ∷ h) c o l = absurd o

-- Appending legacy votes after index `b` overwrites nothing.
hset_legacy_keeps :
    (p : Ballot → Bool) (b : ℕ) (vs : List Ballot) (c : Hash)
    → LegacyUpTo b c
    → (votes p (hset_legacy (b + 1) vs c) ≡ votes p c + count_by p vs)
      × LegacyUpTo (b + length vs) (hset_legacy (b + 1) vs c)
unfolding hset_legacy
hset_legacy_keeps p b [] c l = (omega arith, LegacyUpTo-mono b (b + 0) c (omega arith) l)
hset_legacy_keeps p b (v ∷ vs) c l =
    let c' = hset (legacy_entry (b + 1)) v c in
    let l' =
      LegacyUpTo-hset_legacy (b + 1) (b + 1) v c (omega arith)
        (LegacyUpTo-mono b (b + 1) c (omega arith) l) in
    let ih = hset_legacy_keeps p (b + 1) vs c' l' in
    let new =
      votes-hset_new p (legacy_entry (b + 1)) v c (hget-legacy_new b (b + 1) c l (omega arith)) in
    (
      ground (arith, ih.0, new),
      LegacyUpTo-mono (b + 1 + length vs) (b + suc (length vs)) (hset_legacy (b + 1 + 1) vs c')
          (omega arith) ih.1,
    )

pub votes_true : (h : Hash) → votes (λ _. true) h ≡ length h
votes_true [] = refl
votes_true (x ∷ h) = omega (arith, votes_true h)

votes_mono : (p : Ballot → Bool) (h : Hash) → votes p h ≤ length h
votes_mono p [] = omega arith
votes_mono p (x ∷ h) = ground (arith, votes_mono p h)

length-true {ℓ} : {A : Type ℓ} (xs : List A) → count_by (λ _. true) xs ≡ length xs
length-true [] = refl
length-true (x ∷ xs) = omega (arith, length-true xs)

-- The buffer of one decision, as the module keeps it: distinct fields, none of them claimed before,
-- operation ids only, and `legacy:n` in the claim only up to the size of the claim.
pub record IsValid (d : ℕ) (r : Redis) : Type 0 where
  pub apart : Apart (r.pending d) (r.claimed d)
  pub fields : OpFields (r.pending d)
  pub bounded : LegacyUpTo (length (r.claimed d)) (r.claimed d)

module _ (h : Hash) (vs : List Ballot) (c : Hash) (a : Apart h c) (o : OpFields h)
    (l : LegacyUpTo (length c) c) where
  length-hset_all : length (hset_all h c) ≡ length c + length h
  length-hset_all = omega (
    arith,
    votes-hset_all (λ _. true) h c a,
    votes_true h,
    votes_true c,
    votes_true (hset_all h c),
  )

  merged_keeps :
      (p : Ballot → Bool)
      → (votes p (merged h vs c) ≡ votes p c + votes p h + count_by p vs)
        × LegacyUpTo (length (hset_all h c) + length vs) (merged h vs c)
  unfolding merged
  merged_keeps p =
      let e = length-hset_all in
      let l' =
        LegacyUpTo-hset_all (length (hset_all h c)) h c o
          (LegacyUpTo-mono (length c) (length (hset_all h c)) c (omega (arith, e)) l) in
      let k = hset_legacy_keeps p (length (hset_all h c)) vs (hset_all h c) l' in
      (omega (arith, k.0, votes-hset_all p h c a), k.1)

module _ (d : ℕ) (r : Redis) (v : IsValid d r) where
  -- A claim on a valid buffer holds every vote once: those of an earlier, unacknowledged claim, the
  -- queued ones and the legacy ones. The test `p` is arbitrary, so no vote changes into another either.
  pub claim_script_counts :
      (p : Ballot → Bool)
      → votes p ((claim_script d r).claimed d)
        ≡ votes p (r.claimed d) + votes p (r.pending d) + count_by p (r.legacy d)
  unfolding claim_script
  claim_script_counts p =
      rw (==_refl d)
        (merged_keeps (r.pending d) (r.legacy d) (r.claimed d) v.apart v.fields v.bounded p).0

  pub length-claimed :
      length ((claim_script d r).claimed d)
      ≡ length (r.claimed d) + length (r.pending d) + length (r.legacy d)
  length-claimed = omega (
    arith,
    claim_script_counts (λ _. true),
    votes_true (r.claimed d),
    votes_true (r.pending d),
    votes_true ((claim_script d r).claimed d),
    length-true (r.legacy d),
  )

  -- A claim on a valid buffer leaves a valid buffer.
  pub claim_script-IsValid : IsValid d (claim_script d r)
  unfolding claim_script
  claim_script-IsValid =
      let k =
        merged_keeps (r.pending d) (r.legacy d) (r.claimed d) v.apart v.fields v.bounded
          (λ _. true) in
      let m = merged (r.pending d) (r.legacy d) (r.claimed d) in
      record {
        apart = rw (==_refl d) tt;
        fields = rw (==_refl d) tt;
        bounded = rw (==_refl d) (
            LegacyUpTo-mono (length (hset_all (r.pending d) (r.claimed d)) + length (r.legacy d))
              (length m) m
              (omega (
                arith,
                k.0,
                votes_true m,
                votes_true (r.claimed d),
                votes_true (r.pending d),
                length-true (r.legacy d),
                length-hset_all (r.pending d) (r.legacy d) (r.claimed d) v.apart v.fields v.bounded,
              ))
              k.1);
      }

-- A claim that was not acknowledged is claimed again unchanged, so a failed run can be repeated.
pub claim_script_again :
    (d : ℕ) (r : Redis)
    → (claim_script d (claim_script d r)).claimed d ≡ (claim_script d r).claimed d
unfolding claim_script merged hset_all hset_legacy
claim_script_again d r = simp (==_refl)

-- What the call of the script returns and leaves behind.
pub claim_run :
    (d : ℕ) (w : World)
    → w.redis.online ≡ true
    → claim_pending_votes d w ≡ (
      ok (map (λ e. e.1) ((claim_script d w.redis).claimed d)),
      record w { redis = claim_script d w.redis },
    )
unfolding claim_pending_votes
claim_run d w up = ground arith

pub clear_run :
    (d : ℕ) (w : World)
    → w.redis.online ≡ true
    → (n : ℕ) × (clear_pending_votes d w ≡ (ok n, record w { redis = cleared d w.redis }))
unfolding clear_pending_votes
clear_run d w up = (
  bit (exists_by (λ _. true) (w.redis.pending d))
      + bit (exists_by (λ _. true) (w.redis.legacy d))
      + bit (exists_by (λ _. true) (w.redis.claimed d)),
  ground arith,
)

pub online-claim_script : (d : ℕ) (r : Redis) → (claim_script d r).online ≡ r.online
unfolding claim_script
online-claim_script d r = refl

-- A claim empties what it took.
pub pending-claim_script : (d : ℕ) (r : Redis) → (claim_script d r).pending d ≡ []
unfolding claim_script
pending-claim_script d r = rw (==_refl d) refl

pub legacy-claim_script : (d : ℕ) (r : Redis) → (claim_script d r).legacy d ≡ []
unfolding claim_script
legacy-claim_script d r = rw (==_refl d) refl
