-- ===== src/Citizens/Nightly/Blocking.antt =====
-- Whom a run blocks (obywatele/management/commands/count_citizens.py,
-- `block_ineligible_users`; obywatele/services.py).
use wikikracja.Common.{
  ℕ, ◌≡◌, refl, Bool, true, false, not, ◌&&◌, ◌||◌, Option, none, some, List, [], ◌∷◌, ◌==◌,
  is_some, refers, exists_by, update_by, filter_by, All, arith, Result, ok, Bool-cases, inl, inr,
  ◌∙◌,
}
use wikikracja.Common.Int.{ℤ, ltb_ℤ}
use wikikracja.Citizens.Model.{User, Uzytkownik, Db, active_user, is_user, profile_active}
use wikikracja.Citizens.Reputation.{population, required_reputation}
use wikikracja.Citizens.Nightly.{Setting, block, block_next, block_each, block_ineligible_users}

-- The profile has a reputation below the threshold, and belongs to user `k`.
abbrev pub falls : ℤ → ℕ → Uzytkownik → Bool
falls required k p = elim p.reputation [
  | none ↦ false
  | some z ↦ ltb_ℤ z required && refers p.uid k
]

abbrev pub HasReputation : Uzytkownik → Type 0
HasReputation p = is_some p.reputation ≡ true

active-update :
    (j k : ℕ) (us : List User)
    → exists_by (active_user k) (update_by (is_user j) (λ u. record u { is_active = false }) us)
      ≡ (exists_by (active_user k) us && not (j == k))
active-update j k [] = refl
active-update j k (u ∷ us) = ground (arith, active-update j k us)

-- Who is active after the run over some profiles.
abbrev pub Blocks : ℤ → List Uzytkownik → Db → Db → Type 0
Blocks required ps db after =
    (k : ℕ)
    → exists_by (active_user k) after.users
      ≡ (exists_by (active_user k) db.users && not (exists_by (falls required k) ps))

falls_eq :
    (required : ℤ) (p : Uzytkownik) (z : ℤ) (j k : ℕ)
    → p.reputation ≡ some z
    → p.uid ≡ some j
    → falls required k p ≡ (ltb_ℤ z required && j == k)
falls_eq required p z j k e e' = rw e (rw e' refl)

-- A round that blocks, one that does not, and one of a profile without user.
Blocks-below :
    (required : ℤ) (p : Uzytkownik) (ps : List Uzytkownik) (db after : Db) (z : ℤ) (j : ℕ)
    → p.reputation ≡ some z
    → p.uid ≡ some j
    → ltb_ℤ z required ≡ true
    → Blocks required ps (block p j db) after
    → Blocks required (p ∷ ps) db after
unfolding block
Blocks-below required p ps db after z j e e' l h k =
    rw (falls_eq required p z j k e e') (rw l (h k ∙ grounded))
  where
    grounded :
        (exists_by
            (active_user k)
            (update_by (is_user j) (λ u. record u { is_active = false }) db.users)
          && not (exists_by (falls required k) ps))
        ≡ (exists_by (active_user k) db.users
            && not (true && j == k || exists_by (falls required k) ps))
    grounded = ground (arith, active-update j k db.users)

Blocks-above :
    (required : ℤ) (p : Uzytkownik) (ps : List Uzytkownik) (db after : Db) (z : ℤ) (j : ℕ)
    → p.reputation ≡ some z
    → p.uid ≡ some j
    → ltb_ℤ z required ≡ false
    → Blocks required ps db after
    → Blocks required (p ∷ ps) db after
Blocks-above required p ps db after z j e e' l h k =
    rw (falls_eq required p z j k e e') (rw l (h k))

falls-none :
    (required : ℤ) (p : Uzytkownik) (z : ℤ) (k : ℕ)
    → p.reputation ≡ some z
    → p.uid ≡ none
    → falls required k p ≡ false
falls-none required p z k e e' = rw e (rw e' (ground arith))

Blocks-orphan :
    (required : ℤ) (p : Uzytkownik) (ps : List Uzytkownik) (db after : Db) (z : ℤ)
    → p.reputation ≡ some z
    → p.uid ≡ none
    → Blocks required ps db after
    → Blocks required (p ∷ ps) db after
Blocks-orphan required p ps db after z e e' h k = rw (falls-none required p z k e e') (h k)

reputation_clash : (p : Uzytkownik) → HasReputation p → ¬ (p.reputation ≡ none)
reputation_clash p h e = ground arith

-- One round, with what the rest of the run guarantees.
block_next-Blocks :
    (required : ℤ) (p : Uzytkownik) (ps : List Uzytkownik) (db : Db) (rest : Db → Result Db)
    → HasReputation p
    → ((db' : Db) → (after : Db) × (rest db' ≡ ok after) × Blocks required ps db' after)
    → (r : Option ℤ) (o : Option ℕ) → p.reputation ≡ r
    → p.uid ≡ o
    → (after : Db) × (block_next required p r o db rest ≡ ok after)
      × Blocks required (p ∷ ps) db after
unfolding block_next
block_next-Blocks required p ps db rest h ih none o e e' = absurd (reputation_clash p h e)
block_next-Blocks required p ps db rest h ih (some z) none e e' =
    ((ih db).0, (ih db).1, Blocks-orphan required p ps db (ih db).0 z e e' (ih db).2)
block_next-Blocks required p ps db rest h ih (some z) (some j) e e' =
    elim (Bool-cases (ltb_ℤ z required)) [
      | inl l ↦ rw l (
        (ih (block p j db)).0,
        (ih (block p j db)).1,
        Blocks-below required p ps db (ih (block p j db)).0 z j e e' l (ih (block p j db)).2,
      )
      | inr l ↦
          rw l ((ih db).0, (ih db).1, Blocks-above required p ps db (ih db).0 z j e e' l (ih db).2)
    ]

block_each-Blocks :
    (required : ℤ) (ps : List Uzytkownik) (db : Db)
    → All HasReputation ps
    → (after : Db) × (block_each required ps db ≡ ok after) × Blocks required ps db after
unfolding block_each
block_each-Blocks required [] db h = (db, refl, λ k. ground arith)
block_each-Blocks required (p ∷ ps) db (h, hs) =
    block_next-Blocks required p ps db (block_each required ps) h
      (λ db'. block_each-Blocks required ps db' hs) p.reputation p.uid refl refl

-- When the active profiles have a reputation, the run does not raise, and afterwards a user is active
-- exactly if the user was active and has no active profile with a reputation below the threshold of
-- the group as it was before the run.
pub block_ineligible_users_exact :
    (s : Setting) (db : Db)
    → All HasReputation (filter_by (profile_active db.users) db.profiles)
    → (after : Db) × (block_ineligible_users s db ≡ ok after)
      × Blocks
          (required_reputation (population db) s.acceptance)
          (filter_by (profile_active db.users) db.profiles)
          db
          after
unfolding block_ineligible_users
block_ineligible_users_exact s db h = block_each-Blocks _ _ db h
