-- ===== src/Voting/Signing/Counter.antt =====
-- The counter of signatures (`ile_osob_podpisalo`) against the rows of `ZebranePodpisy`.
use wikikracja.Common.{
  ℕ, suc, ◌+◌, ◌≤◌, ◌≡◌, refl, Bool, true, false, some, List, [], ◌∷◌, ◌++◌, ◌==◌, arith,
  if◌then◌else◌, exists_by, count_by, reject_by, All, Bool-cases, inl, inr, count_by-none,
  count_by-append, ◌&&◌,
}
use wikikracja.Common.Int.{pos, ◌+ℤ◌, ◌-ℤ◌}
use wikikracja.Settings.Params.{SiteParameters}
use wikikracja.Voting.Model.{Decyzja, Podpis, Db, Moment}
use wikikracja.Voting.Tables.{signed_by, signs}
use wikikracja.Voting.Signing.{
  sign, withdraw, sign_open, withdraw_open, update_pk, sign_row, withdraw_row, mark_gathered,
  unmark_gathered, counted,
}

-- Each user has signed a decision at most once (`unique_together`).
abbrev pub IsUnique : List Podpis → Type 0
IsUnique s = (d u : ℕ) → count_by (signed_by d u) s ≤ 1

-- The counter of the decision is the number of its signatures.
abbrev pub CountedIn : List Podpis → Decyzja → Type 0
CountedIn s i = i.ile_osob_podpisalo ≡ pos (count_by (signs i.id) s)

pub record IsCounted (db : Db) : Type 0 where
  pub unique : IsUnique db.podpisy
  pub counts : All (CountedIn db.podpisy) db.decyzje

abbrev row : ℕ → ℕ → Podpis
row d u = record { projekt = some d; podpis_uzytkownika = some u }

signed_by-row : (d u d' u' : ℕ) → signed_by d' u' (row d u) ≡ (d == d' && u == u')
signed_by-row d u d' u' = refl

-- A signature more counts for its decision, and for no other.
signs-append :
    (d u j : ℕ) (s : List Podpis)
    → count_by (signs j) (s ++ row d u ∷ [])
      ≡ (if d == j then suc (count_by (signs j) s) else count_by (signs j) s)
signs-append d u j s = rw count_by-append (ground arith)

-- What a withdrawal takes away.
signs-reject :
    (d u j : ℕ) (s : List Podpis)
    → count_by (signs j) (reject_by (signed_by d u) s)
        + (if d == j then count_by (signed_by d u) s else 0)
      ≡ count_by (signs j) s
signs-reject d u j [] = ground arith
signs-reject d u j (x ∷ s) = ground (arith, signs-reject d u j s)

IsUnique-append :
    (d u : ℕ) (s : List Podpis)
    → exists_by (signed_by d u) s ≡ false
    → IsUnique s
    → IsUnique (s ++ row d u ∷ [])
IsUnique-append d u s e h d' u' =
    rw count_by-append (ground (arith, h d' u', count_by-none (signed_by d u) s e))

count-reject_le :
    (p q : Podpis → Bool) (s : List Podpis) → count_by q (reject_by p s) ≤ count_by q s
count-reject_le p q [] = omega arith
count-reject_le p q (x ∷ s) = ground (arith, count-reject_le p q s)

exists-counted : (p : Podpis → Bool) (s : List Podpis) → exists_by p s ≡ true → 1 ≤ count_by p s
exists-counted p [] e = cc
exists-counted p (x ∷ s) e = ground (arith, exists-counted p s)

-- Decisions whose counters fitted the old signatures fit the new ones after the update.
module _ (old new : List Podpis) (pk : ℕ) (f : Decyzja → Decyzja)
    (same : (i : Decyzja) → (i.id == pk) ≡ false → CountedIn old i → CountedIn new i)
    (moved : (i : Decyzja) → (i.id == pk) ≡ true → CountedIn old i → CountedIn new (f i)) where
  update-CountedIn :
      (ds : List Decyzja) → All (CountedIn old) ds → All (CountedIn new) (update_pk pk f ds)
  update-CountedIn [] h = tt
  update-CountedIn (i ∷ ds) h = elim (Bool-cases (i.id == pk)) [
    | inl e ↦ rw e (moved i e h.0, update-CountedIn ds h.1)
    | inr e ↦ rw e (same i e h.0, update-CountedIn ds h.1)
  ]

-- The date columns do not enter the count.
mark-CountedIn :
    (sp : SiteParameters) (t : Moment) (s : List Podpis) (i : Decyzja)
    → CountedIn s i
    → CountedIn s (mark_gathered sp t i)
unfolding mark_gathered
mark-CountedIn sp t s i h = ground arith

unmark-CountedIn :
    (sp : SiteParameters) (s : List Podpis) (i : Decyzja)
    → CountedIn s i
    → CountedIn s (unmark_gathered sp i)
unfolding unmark_gathered
unmark-CountedIn sp s i h = ground arith

module _ (sp : SiteParameters) (t : Moment) (pk user : ℕ) (s : List Podpis) (i : Decyzja) where
  other-signs : (i.id == pk) ≡ false → CountedIn s i → CountedIn (s ++ row pk user ∷ []) i
  other-signs e h = rw signs-append (ground (arith, h))

  own-signs :
      (i.id == pk) ≡ true → CountedIn s i → CountedIn (s ++ row pk user ∷ []) (sign_row sp t true i)
  unfolding sign_row ◌+ℤ◌
  own-signs e h =
      mark-CountedIn sp t (s ++ row pk user ∷ []) (counted (i.ile_osob_podpisalo +ℤ pos 1) i)
        (rw signs-append (ground (arith, h)))

  own-again : CountedIn s i → CountedIn s (sign_row sp t false i)
  unfolding sign_row
  own-again h = mark-CountedIn sp t s i h

  other-withdraws :
      (i.id == pk) ≡ false → CountedIn s i → CountedIn (reject_by (signed_by pk user) s) i
  other-withdraws e h = ground (arith, h, signs-reject pk user i.id s)

  own-withdraws :
      count_by (signed_by pk user) s ≡ 1
      → (i.id == pk) ≡ true
      → CountedIn s i
      → CountedIn (reject_by (signed_by pk user) s) (withdraw_row sp i)
  unfolding withdraw_row ◌-ℤ◌
  own-withdraws one e h =
      unmark-CountedIn sp (reject_by (signed_by pk user) s)
        (counted (i.ile_osob_podpisalo -ℤ pos 1) i) (ground (arith, h, signs-reject pk user i.id s))

sign_open-IsCounted :
    (sp : SiteParameters) (t : Moment) (pk user : ℕ) (db : Db)
    → IsCounted db
    → IsCounted (sign_open sp t pk user db)
unfolding sign_open
sign_open-IsCounted sp t pk user db h =
    elim (Bool-cases (exists_by (signed_by pk user) db.podpisy)) [
      | inl e ↦ rw e (record {
        unique = h.unique;
        counts =
            update-CountedIn db.podpisy db.podpisy pk _ (λ i e' k. k)
              (λ i e' k. own-again sp t pk user db.podpisy i k) db.decyzje h.counts;
      })
      | inr e ↦ rw e (record {
        unique = IsUnique-append pk user db.podpisy e h.unique;
        counts =
            update-CountedIn db.podpisy (db.podpisy ++ row pk user ∷ []) pk _
              (λ i e' k. other-signs sp t pk user db.podpisy i e' k)
              (λ i e' k. own-signs sp t pk user db.podpisy i e' k) db.decyzje h.counts;
      })
    ]

withdraw_open-IsCounted :
    (sp : SiteParameters) (t : Moment) (pk user : ℕ) (db : Db)
    → IsCounted db
    → IsCounted (withdraw_open sp pk user db)
unfolding withdraw_open
withdraw_open-IsCounted sp t pk user db h =
    elim (Bool-cases (exists_by (signed_by pk user) db.podpisy)) [
      | inl e ↦ rw e (record {
        unique = λ d u.
            omega
              (arith, h.unique d u, count-reject_le (signed_by pk user) (signed_by d u) db.podpisy);
        counts =
            update-CountedIn db.podpisy (reject_by (signed_by pk user) db.podpisy) pk _
              (λ i e' k. other-withdraws sp t pk user db.podpisy i e' k)
              (λ i e' k.
                own-withdraws sp t pk user db.podpisy i
                  (omega (arith, h.unique pk user, exists-counted (signed_by pk user) db.podpisy e))
                  e' k)
              db.decyzje h.counts;
      })
      | inr e ↦ rw e h
    ]

-- Signing keeps, for every decision, the counter equal to the number of signatures, and every
-- signature unique, whatever the request ends with.
pub sign-IsCounted :
    (sp : SiteParameters) (t : Moment) (pk user : ℕ) (db : Db)
    → IsCounted db
    → IsCounted (sign sp t pk user db).1
unfolding sign
sign-IsCounted sp t pk user db h = ground (arith, sign_open-IsCounted sp t pk user db h)

-- Withdrawing a signature keeps the counters and the uniqueness of signatures too.
pub withdraw-IsCounted :
    (sp : SiteParameters) (t : Moment) (pk user : ℕ) (db : Db)
    → IsCounted db
    → IsCounted (withdraw sp pk user db).1
unfolding withdraw
withdraw-IsCounted sp t pk user db h = ground (arith, withdraw_open-IsCounted sp t pk user db h)
