-- ===== src/Bookkeeping/Balances/Shown.antt =====
-- What `asset_balances` of bookkeeping/services.py shows for each financial asset, and what a new
-- transaction (bookkeeping/models.py) changes of it.
use wikikracja.Common.{
  ℕ, ◌≡◌, refl, ap, ◌∙◌, ◌&&◌, not, Bool, true, false, Option, none, some, List, [], ◌∷◌, ◌==◌,
  if◌then◌else◌, is_some, exists_by, reject_by, filter_by, Bool-cases, ◌⊎◌, inl, inr, arith,
  value_error, ok, err,
}
use wikikracja.Common.Int.{ℤ, pos, ◌+ℤ◌, +ℤ_zero}
use wikikracja.Bookkeeping.Model.{Entity, Transaction, financial_at, save_transaction}
use wikikracja.Bookkeeping.Balances.{
  Balance, row_of, rows_for, entities_of, aggregated, entity_obj, balance_of, append_balance,
  balances_of, asset_first, sorted_balances, asset_balances, selected, of_entity,
}
use wikikracja.Bookkeeping.Sums.{
  sum_at, sum_at-sort_by, posted, net_at, difference-net_at, IsExact, IsSmall, filter_by-IsSmall,
}

-- What a list of balances shows for one entity.
abbrev pub is_for : ℕ → Balance → Bool
is_for k b = b.asset.pk == k

abbrev pub shown : ℕ → List Balance → ℤ
shown k bs = sum_at (is_for k) (λ b. b.balance) bs

-- Whether the entity is a financial asset of the table.
abbrev pub is_asset : List Entity → ℕ → Bool
is_asset entities k = exists_by (financial_at k) entities

entity_obj-pk : (es : List Entity) (k : ℕ) (e : Entity) → entity_obj es k ≡ some e → e.pk ≡ k
unfolding entity_obj
entity_obj-pk [] k e h = ground arith
entity_obj-pk (f ∷ es) k e h = ground (arith, entity_obj-pk es k e)

is_some-entity_obj : (es : List Entity) (k : ℕ) → is_some (entity_obj es k) ≡ is_asset es k
unfolding entity_obj
is_some-entity_obj [] k = refl
is_some-entity_obj (e ∷ es) k = ground (arith, is_some-entity_obj es k)

-- One round, on an entity that is found or not.
shown-append_balance :
    (total : List ℤ → ℤ) (exact : IsExact total) (k : ℕ) (o : Option Entity) (j : ℕ)
    (ts : List Transaction) (rest : List Balance)
    → ((e : Entity) → o ≡ some e → e.pk ≡ j)
    → IsSmall ts
    → shown k (append_balance o (row_of total j ts) rest) ≡ (
        if j == k
        then (if is_some o then net_at k ts +ℤ shown k rest else shown k rest)
        else shown k rest)
unfolding append_balance row_of balance_of
shown-append_balance total exact k none j ts rest h w = ground arith
shown-append_balance total exact k (some e) j ts rest h w =
    ground (arith, h e refl, difference-net_at total j ts exact w)

abbrev is_key : ℕ → ℕ → Bool
is_key k j = j == k

abbrev IsDistinct : List ℕ → Type 0
IsDistinct [] = Unit
IsDistinct (k ∷ ks) = (exists_by (is_key k) ks ≡ false) × IsDistinct ks

exists_by-reject_by :
    (k j : ℕ) (ks : List ℕ)
    → exists_by (is_key k) (reject_by (is_key j) ks) ≡ (exists_by (is_key k) ks && not (j == k))
exists_by-reject_by k j [] = refl
exists_by-reject_by k j (i ∷ ks) = ground (arith, exists_by-reject_by k j ks)

reject_by-IsDistinct : (j : ℕ) (ks : List ℕ) → IsDistinct ks → IsDistinct (reject_by (is_key j) ks)
reject_by-IsDistinct j [] h = tt
reject_by-IsDistinct j (k ∷ ks) h =
    ground (arith, exists_by-reject_by k j ks, reject_by-IsDistinct j ks h.1)

entities_of-IsDistinct : (ts : List Transaction) → IsDistinct (entities_of ts)
unfolding entities_of
entities_of-IsDistinct [] = tt
entities_of-IsDistinct (t ∷ ts) = (
  ground (arith, exists_by-reject_by t.entity t.entity (entities_of ts)),
  reject_by-IsDistinct t.entity (entities_of ts) (entities_of-IsDistinct ts),
)

exists_by-entities_of :
    (k : ℕ) (ts : List Transaction)
    → exists_by (is_key k) (entities_of ts) ≡ exists_by (of_entity k) ts
unfolding entities_of
exists_by-entities_of k [] = refl
exists_by-entities_of k (t ∷ ts) =
    ground (arith, exists_by-entities_of k ts, exists_by-reject_by k t.entity (entities_of ts))

-- An entity without transactions has a balance of 0.
net_at_none :
    (k : ℕ) (ts : List Transaction) → exists_by (of_entity k) ts ≡ false → net_at k ts ≡ pos 0
net_at_none k [] h = refl
net_at_none k (t ∷ ts) h = ground (arith, net_at_none k ts)

shown-rows_for_absent :
    (total : List ℤ → ℤ) (exact : IsExact total) (k : ℕ) (es : List Entity) (ks : List ℕ)
    (ts : List Transaction)
    → IsSmall ts
    → exists_by (is_key k) ks ≡ false
    → shown k (balances_of es (rows_for total ks ts)) ≡ pos 0
unfolding balances_of rows_for row_of
shown-rows_for_absent total exact k es [] ts w h = refl
shown-rows_for_absent total exact k es (j ∷ ks) ts w h = ground (
  arith,
  shown-append_balance total exact k (entity_obj es j) j ts (balances_of es (rows_for total ks ts))
      (entity_obj-pk es j) w,
  shown-rows_for_absent total exact k es ks ts w,
)

shown-rows_for :
    (total : List ℤ → ℤ) (exact : IsExact total) (k : ℕ) (es : List Entity) (ks : List ℕ)
    (ts : List Transaction)
    → IsDistinct ks
    → IsSmall ts
    → exists_by (is_key k) ks ≡ true
    → shown k (balances_of es (rows_for total ks ts))
      ≡ (if is_asset es k then net_at k ts else pos 0)
unfolding balances_of rows_for row_of
shown-rows_for total exact k es [] ts d w h = ground arith
shown-rows_for total exact k es (j ∷ ks) ts d w h = ground (
  arith,
  shown-append_balance total exact k (entity_obj es j) j ts (balances_of es (rows_for total ks ts))
      (entity_obj-pk es j) w,
  shown-rows_for_absent total exact k es ks ts w,
  shown-rows_for total exact k es ks ts d.1 w,
  is_some-entity_obj es k,
  +ℤ_zero (net_at k ts),
)

shown-sorted_balances :
    (total : List ℤ → ℤ) (exact : IsExact total) (k : ℕ) (es : List Entity) (ts : List Transaction)
    → IsSmall ts
    → shown k (sorted_balances total es ts) ≡ (if is_asset es k then net_at k ts else pos 0)
unfolding sorted_balances aggregated
shown-sorted_balances total exact k es ts w =
    sum_at-sort_by (is_for k) (λ b. b.balance) asset_first (balances_of es (aggregated total ts))
    ∙ elim (Bool-cases (exists_by (is_key k) (entities_of ts))) [
      | inl found ↦
          shown-rows_for total exact k es (entities_of ts) ts (entities_of-IsDistinct ts) w found
      | inr absent ↦ ground (
        arith,
        shown-rows_for_absent total exact k es (entities_of ts) ts w absent,
        net_at_none k ts,
        exists_by-entities_of k ts,
      )
    ]

-- The filter by asset lets one financial asset through, or all of them.
abbrev pub lets : Option Entity → ℕ → Bool
lets none k = true
lets (some asset) k = asset.financial && (asset.pk == k)

net_at-filter_by :
    (k j : ℕ) (ts : List Transaction)
    → net_at k (filter_by (of_entity j) ts) ≡ (if j == k then net_at k ts else pos 0)
net_at-filter_by k j [] = ground arith
net_at-filter_by k j (t ∷ ts) = ground (arith, net_at-filter_by k j ts)

-- When the database adds up amounts that are not negative exactly as long as their sum has fifteen
-- digits at most, and the amounts of the table are so, then, whatever the filters, `asset_balances` shows for every financial asset in the table that the filter
-- by asset lets through the sum of the signed amounts, incoming less outgoing, of the transactions
-- that pass the filters by year, category and partner, and nothing for any other entity.
pub shown-asset_balances :
    (total : List ℤ → ℤ) (year category partner : Option ℕ) (asset : Option Entity)
    (es : List Entity) (ts : List Transaction) (k : ℕ)
    → IsExact total
    → IsSmall ts
    → shown k (asset_balances total year category partner asset es ts) ≡ (
        if is_asset es k && lets asset k
        then net_at k (filter_by (selected year category partner) ts)
        else pos 0)
unfolding asset_balances
shown-asset_balances total year category partner none es ts k exact w =
    shown-sorted_balances total exact k es (filter_by (selected year category partner) ts)
      (filter_by-IsSmall (selected year category partner) ts w)
    ∙ ground arith
shown-asset_balances total year category partner (some a) es ts k exact w =
    let small = filter_by-IsSmall (selected year category partner) ts w in
    ground (
      arith,
      shown-sorted_balances total exact k es
          (filter_by (of_entity a.pk) (filter_by (selected year category partner) ts))
          (filter_by-IsSmall (of_entity a.pk) (filter_by (selected year category partner) ts)
            small),
      net_at-filter_by k a.pk (filter_by (selected year category partner) ts),
    )

-- The accounts of the community: the balance of every entity.
abbrev pub Accounts : Type 0
Accounts = ℕ → ℤ

-- A transaction moves the account of its entity by its signed amount, and no other.
abbrev pub post : Transaction → Accounts → Accounts
post t accounts k = if t.entity == k then posted t +ℤ accounts k else accounts k

abbrev pub accounts_of : (List ℤ → ℤ) → List Entity → List Transaction → Accounts
accounts_of total es ts k = shown k (asset_balances total none none none none es ts)

filter_by-selected : (ts : List Transaction) → filter_by (selected none none none) ts ≡ ts
unfolding selected
filter_by-selected [] = refl
filter_by-selected (t ∷ ts) = ap (λ l. t ∷ l) (filter_by-selected ts)

accounts_of-net_at :
    (total : List ℤ → ℤ) (es : List Entity) (ts : List Transaction) (k : ℕ)
    → IsExact total
    → IsSmall ts
    → accounts_of total es ts k ≡ (if is_asset es k then net_at k ts else pos 0)
accounts_of-net_at total es ts k exact w = ground (
  arith,
  shown-asset_balances total none none none none es ts k exact w,
  ap (net_at k) (filter_by-selected ts),
)

-- The balances implement the accounts, when the database adds up amounts that are not negative exactly
-- as long as their sum has fifteen digits at most, and the amounts with the new one are so: a
-- transaction that is stored moves the balance shown for its entity by its signed amount and no other
-- balance, and one that is refused is for an entity that is no financial asset.
pub save_transaction-post :
    (total : List ℤ → ℤ) (es : List Entity) (t : Transaction) (ts : List Transaction) (k : ℕ)
    → IsExact total
    → IsSmall (t ∷ ts)
    → ((saved : List Transaction) × (save_transaction es t ts ≡ ok saved)
        × (accounts_of total es saved k ≡ post t (accounts_of total es ts) k))
      ⊎ ((save_transaction es t ts ≡ err value_error) × (is_asset es t.entity ≡ false))
unfolding save_transaction
save_transaction-post total es t ts k exact w = elim (Bool-cases (is_asset es t.entity)) [
  | inl found ↦ inl (
    t ∷ ts,
    ground arith,
    ground (
      arith,
      accounts_of-net_at total es (t ∷ ts) k exact w,
      accounts_of-net_at total es ts k exact (omega (arith, w)),
    ),
  )
  | inr absent ↦ inr (ground arith, absent)
]
