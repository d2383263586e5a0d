-- ===== src/Voting/World.antt =====
-- What the voting code reads and changes: the SQL tables, the vote buffer in Redis, and the list of
-- signals that the nightly command queues. A call may raise; what it did before stays done, but
-- `transaction.atomic()` brings back the tables, and the tables only.
use wikikracja.Common.{ℕ, Bool, true, false, List, [], ◌∷◌, ◌++◌, Error, Result, ok, err, ◌==◌}
use wikikracja.Voting.Model.{Ballot, Db}

-- The fields of the Redis hashes: operation ids of requests, and `legacy:<n>`.
pub data Field : Type 0 where
  op : ℕ → Field
  legacy_entry : ℕ → Field

abbrev pub same_field : Field → Field → Bool
same_field (op a) (op b) = a == b
same_field (op a) (legacy_entry b) = false
same_field (legacy_entry a) (op b) = false
same_field (legacy_entry a) (legacy_entry b) = a == b

abbrev pub Hash : Type 0
Hash = List (Field × Ballot)

-- The keys that vote_buffer.py uses, by decision; `online` tells whether Redis answers.
pub record Redis : Type 0 where
  pub online : Bool
  pub pending : ℕ → Hash
  pub legacy : ℕ → List Ballot
  pub claimed : ℕ → Hash

pub data Transition : Type 0 where
  discussion_started rejected_no_signatures started last_day buffer_restart : Transition
  approved_now rejected_now proposed modified : Transition

pub record Signal : Type 0 where
  pub transition : Transition
  pub vote_id : ℕ

pub record World : Type 0 where
  pub db : Db
  pub redis : Redis
  pub signals : List Signal

abbrev pub M : Type 0 → Type 0
M A = World → Result A × World

infixl 5 ◌>>=◌ ◌>>◌
abbrev pub ◌>>=◌ : {A B : Type 0} → M A → (A → M B) → M B
◌>>=◌ m f w = let (r, w') = m w in elim r [ ok a ↦ f a w' | err e ↦ (err e, w') ]

abbrev pub ◌>>◌ : {A B : Type 0} → M A → M B → M B
m >> k = m >>= λ _. k

module _ {A : Type 0} where
  abbrev pub pure : A → M A
  pure a w = (ok a, w)

  abbrev pub raise : Error → M A
  raise e w = (err e, w)

  abbrev pub lift : Result A → M A
  lift r w = (r, w)

  abbrev pub gets : (World → A) → M A
  gets f w = (ok (f w), w)

  -- `with transaction.atomic():`
  abbrev pub atomic : M A → M A
  atomic m w =
      let (r, w') = m w in elim r [ ok a ↦ (ok a, w') | err e ↦ (err e, record w' { db = w.db }) ]

abbrev pub modify_db : (Db → Db) → M Unit
modify_db f w = (ok tt, record w { db = f w.db })

abbrev pub set_redis : Redis → M Unit
set_redis r w = (ok tt, record w { redis = r })

-- `pending_signals.append(...)`
abbrev pub queue_signal : Transition → ℕ → M Unit
queue_signal t pk w =
    (ok tt, record w { signals = w.signals ++ record { transition = t; vote_id = pk } ∷ [] })

abbrev pub when : Bool → M Unit → M Unit
when true m = m
when false m = pure tt

-- `if c: m` and `else: n`, as calls.
abbrev pub choose : Bool → M Unit → M Unit → M Unit
choose true m n = m
choose false m n = n
