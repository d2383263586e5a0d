-- ===== src/Voting/Editing/History.antt =====
-- Who may change a proposal, and what an edit keeps (glosowania/views.py).
use wikikracja.Common.{
  ℕ, suc, ◌≡◌, ap, ◌∙◌, subst, ◌&&◌, not, none, List, refl, ◌⊎◌, inl, inr, Bool, true, false, some,
  [], ◌∷◌, ◌++◌, arith, Bool-cases, refers, count_by, Option-cases,
}
use wikikracja.Voting.Model.{Decyzja, DecyzjaWersja, Db, Moment, proposition, find_decyzja}
use wikikracja.Voting.Tables.{find-write_row, same_status, stamped, saved}
use wikikracja.Voting.Editing.{
  Form, Request, post, edit, delete_proposal, edited, version_of, proposes_parameters, to_list,
  snapshot,
}

-- The decision is there, still a proposition, and the user wrote it.
abbrev pub Owns : ℕ → ℕ → Db → Type 0
Owns user pk db =
    (i : Decyzja) × (find_decyzja pk db.decyzje ≡ some i)
    × (refers i.author user ≡ true)
    × (same_status i.status proposition ≡ true)

-- An edit changes nothing unless the user owns a proposition that is still open.
pub edit_guarded :
    (t : Moment) (user pk : ℕ) (r : Request Form) (db : Db)
    → ((edit t user pk r db).1 ≡ db) ⊎ Owns user pk db
unfolding edit
edit_guarded t user pk r db = elim (Option-cases (find_decyzja pk db.decyzje)) [
  | inl e ↦ inl (ground arith)
  | inr (i, e) ↦ elim (Bool-cases (refers i.author user)) [
    | inl own ↦ elim (Bool-cases (same_status i.status proposition)) [
      | inl still ↦ inr (i, e, own, still)
      | inr other ↦ inl (ground (arith, e, own, other))
    ]
    | inr other ↦ inl (ground (arith, e, other))
  ]
]

-- A request to delete changes nothing unless the user owns a proposition that is still open.
pub delete_guarded :
    (user pk : ℕ) (confirmed : Bool) (db : Db)
    → ((delete_proposal user pk confirmed db).1 ≡ db) ⊎ Owns user pk db
unfolding delete_proposal
delete_guarded user pk confirmed db = elim (Option-cases (find_decyzja pk db.decyzje)) [
  | inl e ↦ inl (ground arith)
  | inr (i, e) ↦ elim (Bool-cases (refers i.author user)) [
    | inl own ↦ elim (Bool-cases (same_status i.status proposition)) [
      | inl still ↦ inr (i, e, own, still)
      | inr other ↦ inl (ground (arith, e, own, other))
    ]
    | inr other ↦ inl (ground (arith, e, other))
  ]
]

find_decyzja-id :
    (pk : ℕ) (ds : List Decyzja) (i : Decyzja) → find_decyzja pk ds ≡ some i → i.id ≡ pk
find_decyzja-id pk [] i h = ground arith
find_decyzja-id pk (d ∷ ds) i h = ground (arith, find_decyzja-id pk ds i)

-- Whether the user may edit the texts of a decision: it is the user's own, a proposition still, and
-- proposes neither parameters nor a logo.
abbrev pub may_edit : ℕ → Decyzja → Bool
may_edit user i =
    refers i.author user && (same_status i.status proposition && not (proposes_parameters i))

-- The texts of a decision are those of the form, and its author and status are the old ones.
abbrev pub IsRewritten : Form → Decyzja → Decyzja → Type 0
IsRewritten f old i =
    (i.title ≡ f.title)
    × (i.tresc ≡ f.tresc)
    × (i.kara ≡ f.kara)
    × (i.uzasadnienie ≡ f.uzasadnienie)
    × (i.znosi ≡ f.znosi)
    × (i.author ≡ old.author)
    × (i.status ≡ old.status)

-- A version that keeps the texts of a decision, by the user who changed it.
abbrev pub Remembers : ℕ → ℕ → Decyzja → DecyzjaWersja → Type 0
Remembers user number old w =
    (w.decyzja ≡ old.id)
    × (w.modified_by ≡ some user)
    × (w.version_number ≡ number)
    × (w.title ≡ old.title)
    × (w.tresc ≡ old.tresc)
    × (w.kara ≡ old.kara)
    × (w.uzasadnienie ≡ old.uzasadnienie)
    × (w.znosi ≡ old.znosi)

-- The decision has the texts of the form, and one version more than before, which comes last and keeps
-- the texts that were there.
abbrev pub KeepsHistory : ℕ → ℕ → Form → Decyzja → Db → Db → Type 0
KeepsHistory user pk f old db db' =
    ((i : Decyzja) × (find_decyzja pk db'.decyzje ≡ some i) × IsRewritten f old i)
    × ((w : DecyzjaWersja) × (db'.wersje ≡ db.wersje ++ w ∷ [])
        × Remembers user (suc (count_by (version_of pk) db.wersje)) old w)

edit_missing :
    (t : Moment) (user pk : ℕ) (f : Form) (db : Db)
    → find_decyzja pk db.decyzje ≡ none
    → (edit t user pk (post f) db).1 ≡ db
unfolding edit
edit_missing t user pk f db h = ground (arith, h)

module _ (t : Moment) (user : ℕ) (f : Form) (db : Db) (i : Decyzja)
    (row : find_decyzja i.id db.decyzje ≡ some i) where
  edit_run :
      may_edit user i ≡ true
      → edit t user i.id (post f) db ≡ (
        to_list,
        saved t (edited f i) (record db { wersje = db.wersje ++ snapshot user i db ∷ [] }),
      )
  unfolding edit
  edit_run may = ground (arith, row, may)

  edit_keeps :
      may_edit user i ≡ true → KeepsHistory user i.id f i db (edit t user i.id (post f) db).1
  edit_keeps may = rw (edit_run may) (
    (
      stamped t (edited f i),
      find-write_row (stamped t (edited f i)) db.decyzje i row,
      (refl, refl, refl, refl, refl, refl, refl),
    ),
    (snapshot user i db, refl, (refl, refl, omega arith, refl, refl, refl, refl, refl)),
  )

  edit_refused : may_edit user i ≡ false → (edit t user i.id (post f) db).1 ≡ db
  unfolding edit
  edit_refused may = ground (arith, row, may)

-- A form that edits a decision is carried out exactly when the decision is there, is the user's own,
-- still a proposition, and proposes neither parameters nor a logo. Then the decision has the texts of
-- the form under the old author and status, and a new version, which is the last of all and numbered
-- after the versions of the decision, keeps each text that was there; otherwise nothing changes.
pub edit-KeepsHistory :
    (t : Moment) (user pk : ℕ) (f : Form) (db : Db)
    → ((edit t user pk (post f) db).1 ≡ db)
        × ((find_decyzja pk db.decyzje ≡ none)
            ⊎ ((i : Decyzja) × (find_decyzja pk db.decyzje ≡ some i) × (may_edit user i ≡ false)))
      ⊎ ((i : Decyzja) × (find_decyzja pk db.decyzje ≡ some i)
          × (may_edit user i ≡ true)
          × KeepsHistory user pk f i db (edit t user pk (post f) db).1)
edit-KeepsHistory t user pk f db = elim (Option-cases (find_decyzja pk db.decyzje)) [
  | inl absent ↦ inl (missing absent, inl absent)
  | inr (i, found) ↦ decided i found
]
  where
    missing : find_decyzja pk db.decyzje ≡ none → (edit t user pk (post f) db).1 ≡ db
    missing absent = edit_missing t user pk f db absent

    decided :
        (i : Decyzja)
        → find_decyzja pk db.decyzje ≡ some i
        → ((edit t user pk (post f) db).1 ≡ db)
            × ((find_decyzja pk db.decyzje ≡ none)
                ⊎ ((i : Decyzja) × (find_decyzja pk db.decyzje ≡ some i)
                    × (may_edit user i ≡ false)))
          ⊎ ((i : Decyzja) × (find_decyzja pk db.decyzje ≡ some i)
              × (may_edit user i ≡ true)
              × KeepsHistory user pk f i db (edit t user pk (post f) db).1)
    decided i found =
        let same = find_decyzja-id pk db.decyzje i found in
        let row = ap (λ k. find_decyzja k db.decyzje) same ∙ found in
        elim (Bool-cases (may_edit user i)) [
          | inl may ↦ inr (
            i,
            found,
            may,
            subst (λ k. KeepsHistory user k f i db (edit t user k (post f) db).1) same
                (edit_keeps t user f db i row may),
          )
          | inr may_not ↦ inl (
            subst (λ k. (edit t user k (post f) db).1 ≡ db) same
                (edit_refused t user f db i row may_not),
            inr (i, found, may_not),
          )
        ]
