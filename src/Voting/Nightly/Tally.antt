-- ===== src/Voting/Nightly/Tally.antt =====
-- Closing a referendum (glosowania/management/commands/vote.py): what becomes of its votes.
use mathlib.Core.List.{Perm, Permᴰ}
use mathlib.Core.Logic.{∥∥₁_elim}
use native.Mathlib.Nat.{ℕ_set}
use wikikracja.Common.{
  ℕ, ◌+◌, ◌≡◌, refl, ◌∙◌, Bool-cases, inl, inr, Bool, true, false, none, some, List, [], ◌∷◌, ◌++◌,
  map, ok, arith, ◌==◌, ==_refl, if◌then◌else◌, ltb, length, ==_iff, sym, count_by-reject_by,
  count_by, reject_by,
}
use wikikracja.Settings.Params.{SiteParameters}
use wikikracja.Voting.Model.{
  Decyzja, Ballot, Moment, find_decyzja, write_row, Label, rejected, approved, rejected_label,
  approved_label,
}
use wikikracja.Voting.World.{World, Hash, choose, buffer_restart}
use wikikracja.Voting.Buffer.{claim_script, cleared}
use wikikracja.Voting.Buffer.Claim.{
  votes, IsValid, claim_script_counts, length-claimed, claim_run, clear_run, online-claim_script,
}
use wikikracja.Voting.Tables.{find-write_row, votes_on, stamped, save}
use wikikracja.Voting.Nightly.{close, tally, tallied, says_yes, says_no, restarted, restart}

count-Permᴰ :
    (p : Ballot → Bool) {xs ys : List Ballot} → Permᴰ xs ys → count_by p xs ≡ count_by p ys
count-Permᴰ p Permᴰ.nil = refl
count-Permᴰ p (Permᴰ.cons {a = a} {b = b} {l₁ = l} {l₂ = m} e d) =
    rw e (ground (arith, count-Permᴰ p d))
count-Permᴰ p (Permᴰ.swap e f) = rw (e, f) (ground arith)
count-Permᴰ p (Permᴰ.trans d d') = count-Permᴰ p d ∙ count-Permᴰ p d'

-- A shuffled list has as many votes of each kind.
count-perm : (p : Ballot → Bool) {xs ys : List Ballot} → Perm xs ys → count_by p xs ≡ count_by p ys
count-perm p h = ∥∥₁_elim h (ℕ_set _ _) (count-Permᴰ p)

-- The ballots of a claim.
abbrev ballots : Hash → List Ballot
ballots h = map (λ e. e.1) h

count-ballots : (p : Ballot → Bool) (h : Hash) → count_by p (ballots h) ≡ votes p h
count-ballots p [] = refl
count-ballots p (e ∷ h) = ground (arith, count-ballots p h)

length-ballots : (h : Hash) → length (ballots h) ≡ length h
length-ballots [] = refl
length-ballots (e ∷ h) = omega (arith, length-ballots h)

-- Every recorded voter has one vote in the buffer, and the other way round.
abbrev pub IsBalanced : ℕ → World → Type 0
IsBalanced d w =
    count_by (votes_on d) w.db.glosy
    ≡ length (w.redis.claimed d) + length (w.redis.pending d) + length (w.redis.legacy d)

module _ (shuffle : List Ballot → List Ballot)
    (shuffle_perm : (xs : List Ballot) → Perm (shuffle xs) xs) (sp : SiteParameters) (t : Moment)
    (i : Decyzja) (w : World) (up : w.redis.online ≡ true) (valid : IsValid i.id w.redis)
    (row : find_decyzja i.id w.db.decyzje ≡ some i) where
  -- The votes of the referendum in the whole buffer.
  abbrev pub cast : (Ballot → Bool) → ℕ
  cast p =
      votes p (w.redis.claimed i.id)
      + votes p (w.redis.pending i.id)
      + count_by p (w.redis.legacy i.id)

  claimed_world : World
  claimed_world = record w { redis = claim_script i.id w.redis }

  snapshot : List Ballot
  snapshot = ballots ((claim_script i.id w.redis).claimed i.id)

  count-snapshot : (p : Ballot → Bool) → count_by p snapshot ≡ cast p
  unfolding snapshot
  count-snapshot p =
      count-ballots p ((claim_script i.id w.redis).claimed i.id)
      ∙ claim_script_counts i.id w.redis valid p

  length-snapshot :
      length snapshot
      ≡ length (w.redis.claimed i.id) + length (w.redis.pending i.id) + length (w.redis.legacy i.id)
  unfolding snapshot
  length-snapshot =
      length-ballots ((claim_script i.id w.redis).claimed i.id) ∙ length-claimed i.id w.redis valid

  -- What `close` does after the claim.
  close_claimed :
      close shuffle sp t i w
      ≡ choose
          (count_by (votes_on i.id) w.db.glosy == length snapshot)
          (tally shuffle t i snapshot)
          (restart sp t i)
          claimed_world
  unfolding close snapshot claimed_world
  close_claimed = ground (arith, claim_run i.id w up)

  restarted_world : World
  restarted_world = record w {
    redis = cleared i.id (claim_script i.id w.redis);
    db = record w.db {
      glosy = reject_by (votes_on i.id) w.db.glosy;
      decyzje = write_row (stamped t (restarted sp t i)) w.db.decyzje;
    };
    signals = w.signals ++ record { transition = buffer_restart; vote_id = i.id } ∷ [];
  }

  restart_run : restart sp t i claimed_world ≡ (ok tt, restarted_world)
  unfolding restart claimed_world restarted_world save
  restart_run = ground (
    arith,
    (clear_run i.id (record w { redis = claim_script i.id w.redis })
        (online-claim_script i.id w.redis ∙ up)).1,
  )

  is_lost : ¬ IsBalanced i.id w → (count_by (votes_on i.id) w.db.glosy == length snapshot) ≡ false
  is_lost lost = elim (Bool-cases (count_by (votes_on i.id) w.db.glosy == length snapshot)) [
    | inl e ↦ absurd (lost ((==_iff _ _).0 e ∙ length-snapshot))
    | inr e ↦ e
  ]

  is_complete : IsBalanced i.id w → (count_by (votes_on i.id) w.db.glosy == length snapshot) ≡ true
  is_complete b = (==_iff _ _).1 (b ∙ sym length-snapshot)

  close_lost : ¬ IsBalanced i.id w → close shuffle sp t i w ≡ (ok tt, restarted_world)
  close_lost lost = close_claimed ∙ rw (is_lost lost) restart_run

  -- With Redis answering, a valid buffer and the row of the decision in its table: when the buffer does
  -- not hold one vote for each recorded voter, the run succeeds, no vote is counted or revealed, the
  -- voters and the buffer of the referendum are cleared, and it begins anew.
  pub close_restarts :
      ¬ IsBalanced i.id w
      → let (r, w') = close shuffle sp t i w in
        (r ≡ ok tt)
        × (find_decyzja i.id w'.db.decyzje ≡ some (stamped t (restarted sp t i)))
        × (w'.db.codes ≡ w.db.codes)
        × (count_by (votes_on i.id) w'.db.glosy ≡ 0)
        × (w'.redis.pending i.id ≡ [])
        × (w'.redis.legacy i.id ≡ [])
        × (w'.redis.claimed i.id ≡ [])
  unfolding restarted_world
  close_restarts lost = rw (close_lost lost) (
    refl,
    find-write_row (stamped t (restarted sp t i)) w.db.decyzje i row,
    refl,
    count_by-reject_by (votes_on i.id) w.db.glosy,
    rw (==_refl i.id) refl,
    rw (==_refl i.id) refl,
    rw (==_refl i.id) refl,
  )

  counted : Decyzja
  counted = tallied (shuffle snapshot) i

  za-counted : counted.za ≡ cast says_yes
  unfolding counted
  za-counted = count-perm says_yes (shuffle_perm snapshot) ∙ count-snapshot says_yes

  przeciw-counted : counted.przeciw ≡ cast says_no
  unfolding counted
  przeciw-counted = count-perm says_no (shuffle_perm snapshot) ∙ count-snapshot says_no

  module _ (labels : List Label) (path_known : i.path ≡ some labels)
      (abolishes_nothing : i.znosi ≡ none) where
    -- The rows that the two ways to end write.
    approved_row : Decyzja
    approved_row =
        stamped t
          (record counted { status = approved; path = some (labels ++ approved_label ∷ []) })

    rejected_row : Decyzja
    rejected_row = stamped t (record counted {
      status = rejected;
      data_odrzucenia = some t.today;
      path = some (labels ++ rejected_label ∷ []);
    })

    tally_approves :
        ltb counted.przeciw counted.za ≡ true
        → ((tally shuffle t i snapshot claimed_world).0 ≡ ok tt)
          × ((tally shuffle t i snapshot claimed_world).1.db.decyzje
              ≡ write_row approved_row w.db.decyzje)
    unfolding tally save claimed_world approved_row counted
    tally_approves more = ground (arith, path_known, abolishes_nothing)

    tally_rejects :
        ltb counted.przeciw counted.za ≡ false
        → ((tally shuffle t i snapshot claimed_world).0 ≡ ok tt)
          × ((tally shuffle t i snapshot claimed_world).1.db.decyzje
              ≡ write_row rejected_row w.db.decyzje)
    unfolding tally save claimed_world rejected_row counted
    tally_rejects fewer = ground (arith, path_known, abolishes_nothing)

    written :
        (r : Decyzja) {ds : List Decyzja}
        → r.id ≡ i.id
        → ds ≡ write_row r w.db.decyzje
        → find_decyzja i.id ds ≡ some r
    written r same e = rw (e, ← same) (find-write_row r w.db.decyzje i (rw same row))

    status-approved_row :
        ltb counted.przeciw counted.za ≡ true
        → approved_row.status ≡ (if ltb (cast says_no) (cast says_yes) then approved else rejected)
    unfolding approved_row
    status-approved_row more = ground (arith, za-counted, przeciw-counted)

    status-rejected_row :
        ltb counted.przeciw counted.za ≡ false
        → rejected_row.status ≡ (if ltb (cast says_no) (cast says_yes) then approved else rejected)
    unfolding rejected_row
    status-rejected_row fewer = ground (arith, za-counted, przeciw-counted)

    -- With Redis answering, a valid buffer, the row of the decision in its table, a path and nothing to
    -- abolish: when the buffer holds one vote for each recorded voter, the run succeeds, and the
    -- decision gets exactly the votes that were cast, is approved when more are for it than against it,
    -- and is rejected otherwise.
    pub close_tallies :
        IsBalanced i.id w
        → let (r, w') = close shuffle sp t i w in
          (r ≡ ok tt)
          × ((d : Decyzja) × (find_decyzja i.id w'.db.decyzje ≡ some d)
              × (d.za ≡ cast says_yes)
              × (d.przeciw ≡ cast says_no)
              × (d.status ≡ (if ltb (cast says_no) (cast says_yes) then approved else rejected)))
    unfolding approved_row rejected_row counted
    close_tallies b = elim (Bool-cases (ltb counted.przeciw counted.za)) [
      | inl more ↦
          let e = tally_approves more in
          rw (close_claimed, is_complete b)
            (
              e.0,
              (
                approved_row,
                written approved_row refl e.1,
                za-counted,
                przeciw-counted,
                status-approved_row more,
              ),
            )
      | inr fewer ↦
          let e = tally_rejects fewer in
          rw (close_claimed, is_complete b)
            (
              e.0,
              (
                rejected_row,
                written rejected_row refl e.1,
                za-counted,
                przeciw-counted,
                status-rejected_row fewer,
              ),
            )
    ]
