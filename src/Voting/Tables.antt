-- ===== src/Voting/Tables.antt =====
-- Queries of glosowania on the tables, and the checks that its views share.
use wikikracja.Common.{
  ◌≡◌, refl, Bool-cases, inl, inr, List, ==_refl, ℕ, Bool, true, false, ◌&&◌, none, some, [], ◌∷◌,
  ◌++◌, does_not_exist, ◌==◌, if◌then◌else◌, refers, exists_by, or_raise,
}
use wikikracja.Voting.Model.{
  Status, Decyzja, Podpis, Glos, Db, Moment, proposition, discussion, referendum, rejected,
  approved, find_decyzja, write_row, ReferendumEffect, Kind, parameters, brand_mark, buffer_ack,
}
use wikikracja.Voting.World.{M, modify_db}

abbrev pub same_status : Status → Status → Bool
same_status proposition proposition = true
same_status discussion discussion = true
same_status referendum referendum = true
same_status rejected rejected = true
same_status approved approved = true
same_status _ _ = false

-- Signatures of user `u` under decision `d`.
abbrev pub signed_by : ℕ → ℕ → Podpis → Bool
signed_by d u s = refers s.projekt d && refers s.podpis_uzytkownika u

abbrev pub signs : ℕ → Podpis → Bool
signs d s = refers s.projekt d

abbrev pub voted_by : ℕ → ℕ → Glos → Bool
voted_by d u g = g.projekt == d && refers g.kto u

abbrev pub votes_on : ℕ → Glos → Bool
votes_on d g = g.projekt == d

-- `Decyzja.is_author_signed`
unfoldable pub is_author_signed : Decyzja → Db → Bool
is_author_signed i db = elim i.author [
  | none ↦ false
  | some a ↦ exists_by (signed_by i.id a) db.podpisy
]

-- `Decyzja.voting_has_ended`
unfoldable pub voting_has_ended : Decyzja → Bool
voting_has_ended i = elim i.status [ rejected ↦ true | approved ↦ true | _ ↦ false ]

unfoldable pub get_decyzja : ℕ → M Decyzja
get_decyzja pk w = (or_raise (find_decyzja pk w.db.decyzje) does_not_exist, w)

-- `save()`: `auto_now` sets the time of the last change.
abbrev pub stamped : Moment → Decyzja → Decyzja
stamped t i = record i { data_ostatniej_modyfikacji = some t.now }

abbrev pub saved : Moment → Decyzja → Db → Db
saved t i db = record db { decyzje = write_row (stamped t i) db.decyzje }

unfoldable pub save : Moment → Decyzja → M Unit
save t i = modify_db (saved t i)

abbrev pub same_kind : Kind → Kind → Bool
same_kind parameters parameters = true
same_kind brand_mark brand_mark = true
same_kind buffer_ack buffer_ack = true
same_kind _ _ = false

abbrev pub is_effect : ℕ → Kind → ReferendumEffect → Bool
is_effect d k e = e.decision == d && same_kind e.kind k

abbrev new_effect : ℕ → Kind → ReferendumEffect
new_effect d k = record { decision = d; kind = k; attempts = 0; failed = false; applied_at = none }

-- `ReferendumEffect.objects.get_or_create(decision=d, kind=k)`
abbrev pub with_effect : ℕ → Kind → Db → Db
with_effect d k db = record db {
  effects =
      if exists_by (is_effect d k) db.effects
      then db.effects
      else db.effects ++ new_effect d k ∷ [];
}

-- A row that is written back is the one that is found.
pub find-write_row :
    (r : Decyzja) (ds : List Decyzja) (i : Decyzja)
    → find_decyzja r.id ds ≡ some i
    → find_decyzja r.id (write_row r ds) ≡ some r
find-write_row r [] i e = cc
find-write_row r (d ∷ ds) i e = elim (Bool-cases (r.id == d.id)) [
  | inl same ↦ rw same (rw (==_refl r.id) refl)
  | inr other ↦ rw other (rw other (find-write_row r ds i (rw other at e)))
]
