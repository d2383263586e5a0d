-- ===== src/Voting/Signing.antt =====
-- Signing a proposal and withdrawing a signature (glosowania/views.py, `details`).
pub mod Counter
use wikikracja.Common.{
  ℕ, ◌+◌, Bool, true, false, not, ◌&&◌, Option, none, some, List, [], ◌∷◌, ◌++◌, ◌==◌,
  if◌then◌else◌, is_some, exists_by, reject_by, update_by,
}
use wikikracja.Common.Int.{ℤ, pos, ◌+ℤ◌, ◌-ℤ◌, ltb_ℤ}
use wikikracja.Settings.Params.{SiteParameters}
use wikikracja.Voting.Model.{Decyzja, Podpis, Db, Moment, proposition, find_decyzja, Status}
use wikikracja.Voting.Tables.{same_status, signed_by}

-- How a request ends: the flash message and the redirect.
pub data Answer : Type 0 where
  to_index not_open signed not_signed : Answer

-- `Decyzja.objects.filter(pk=pk).update(...)`, which does not touch the time of the last change.
abbrev pub update_pk : ℕ → (Decyzja → Decyzja) → List Decyzja → List Decyzja
update_pk pk = update_by (λ i. i.id == pk)

abbrev pub counted : ℤ → Decyzja → Decyzja
counted n i = record i { ile_osob_podpisalo = n }

-- The date of the required signatures, if it has none yet and enough have signed.
mark_gathered : SiteParameters → Moment → Decyzja → Decyzja
mark_gathered sp t i =
    if not (ltb_ℤ i.ile_osob_podpisalo (pos sp.wymaganych_podpisow))
      && not (is_some i.data_zebrania_wymaganej_liczby_podpisow)
    then record i { data_zebrania_wymaganej_liczby_podpisow = some t.today }
    else i

unmark_gathered : SiteParameters → Decyzja → Decyzja
unmark_gathered sp i =
    if ltb_ℤ i.ile_osob_podpisalo (pos sp.wymaganych_podpisow)
    then record i { data_zebrania_wymaganej_liczby_podpisow = none }
    else i

sign_row : SiteParameters → Moment → Bool → Decyzja → Decyzja
unfolding mark_gathered
sign_row sp t created i =
    mark_gathered sp t (if created then counted (i.ile_osob_podpisalo +ℤ pos 1) i else i)

sign_open : SiteParameters → Moment → ℕ → ℕ → Db → Db
unfolding sign_row
sign_open sp t pk user db =
    let created = not (exists_by (signed_by pk user) db.podpisy) in
    record db {
      podpisy =
          if created
          then db.podpisy ++ record { projekt = some pk; podpis_uzytkownika = some user } ∷ []
          else db.podpisy;
      decyzje = update_pk pk (sign_row sp t created) db.decyzje;
    }

withdraw_row : SiteParameters → Decyzja → Decyzja
unfolding unmark_gathered
withdraw_row sp i = unmark_gathered sp (counted (i.ile_osob_podpisalo -ℤ pos 1) i)

withdraw_open : SiteParameters → ℕ → ℕ → Db → Db
unfolding withdraw_row
withdraw_open sp pk user db =
    if exists_by (signed_by pk user) db.podpisy
    then record db {
      podpisy = reject_by (signed_by pk user) db.podpisy;
      decyzje = update_pk pk (withdraw_row sp) db.decyzje;
    }
    else db

-- `_get_and_check_decision`: the decision, if it has the status, or the early answer.
pub data Checked : Type 0 where
  found : Decyzja → Checked
  answer : Answer → Checked

pub check_decision : ℕ → Status → Db → Checked
check_decision pk allowed db = elim (find_decyzja pk db.decyzje) [
  | none ↦ answer to_index
  | some i ↦ if same_status i.status allowed then found i else answer not_open
]

-- The request `sign` by `user`.
pub sign : SiteParameters → Moment → ℕ → ℕ → Db → Answer × Db
unfolding check_decision sign_open
sign sp t pk user db = elim (check_decision pk proposition db) [
  | answer a ↦ (a, db)
  | found i ↦ (signed, sign_open sp t pk user db)
]

-- The request `withdraw` by `user`.
pub withdraw : SiteParameters → ℕ → ℕ → Db → Answer × Db
unfolding check_decision withdraw_open
withdraw sp pk user db = elim (check_decision pk proposition db) [
  | answer a ↦ (a, db)
  | found i ↦ (not_signed, withdraw_open sp pk user db)
]
