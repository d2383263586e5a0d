-- ===== src/Common/Queries.antt =====
-- Lists as database tables: the queries of the source, `filter`, `exists`, `count`, and functions
-- as stores with one value for each key.
use Prim.Native.Nat.{ℕ, suc, ◌+◌}
use mathlib.Core.Path.{◌≡◌, refl}
use mathlib.Core.Bool.{Bool, true, false, not, ◌||◌}
use mathlib.Core.List.{List, [], ◌∷◌, ◌++◌}
use native.Mathlib.Omega.{arith}
use wikikracja.Common.Tests.{◌==◌, if◌then◌else◌}

module _ {ℓ} {A : Type ℓ} where
  abbrev pub length : List A → ℕ
  length [] = 0
  length (x ∷ xs) = suc (length xs)

  abbrev pub filter_by : (A → Bool) → List A → List A
  filter_by p [] = []
  filter_by p (x ∷ xs) = if p x then x ∷ filter_by p xs else filter_by p xs

  -- `exclude`, and what `delete` leaves
  abbrev pub reject_by : (A → Bool) → List A → List A
  reject_by p [] = []
  reject_by p (x ∷ xs) = if p x then reject_by p xs else x ∷ reject_by p xs

  abbrev pub exists_by : (A → Bool) → List A → Bool
  exists_by p [] = false
  exists_by p (x ∷ xs) = p x || exists_by p xs

  abbrev pub count_by : (A → Bool) → List A → ℕ
  count_by p [] = 0
  count_by p (x ∷ xs) = if p x then suc (count_by p xs) else count_by p xs

  -- `filter(p).update(...)`
  abbrev pub update_by : (A → Bool) → (A → A) → List A → List A
  update_by p f [] = []
  update_by p f (x ∷ xs) = if p x then f x ∷ update_by p f xs else x ∷ update_by p f xs

  abbrev pub All {κ} : (A → Type κ) → List A → Type κ
  All P [] = Unit
  All P (x ∷ xs) = P x × All P xs

  pub length-append : (xs ys : List A) → length (xs ++ ys) ≡ length xs + length ys
  length-append [] ys = omega arith
  length-append (x ∷ xs) ys = omega (arith, length-append xs ys)

  pub count_by-append :
      (p : A → Bool) (xs ys : List A) → count_by p (xs ++ ys) ≡ count_by p xs + count_by p ys
  count_by-append p [] ys = omega arith
  count_by-append p (x ∷ xs) ys = ground (arith, count_by-append p xs ys)

  pub count_by-not :
      (p : A → Bool) (xs : List A) → count_by p xs + count_by (λ x. not (p x)) xs ≡ length xs
  count_by-not p [] = refl
  count_by-not p (x ∷ xs) = ground (arith, count_by-not p xs)

  pub length-filter_by : (p : A → Bool) (xs : List A) → length (filter_by p xs) ≡ count_by p xs
  length-filter_by p [] = refl
  length-filter_by p (x ∷ xs) = ground (arith, length-filter_by p xs)

  pub count_by-reject_by : (p : A → Bool) (xs : List A) → count_by p (reject_by p xs) ≡ 0
  count_by-reject_by p [] = refl
  count_by-reject_by p (x ∷ xs) = ground (arith, count_by-reject_by p xs)

  -- A query that misses counts nothing, and the other way round.
  pub count_by-none : (p : A → Bool) (xs : List A) → exists_by p xs ≡ false → count_by p xs ≡ 0
  count_by-none p [] h = refl
  count_by-none p (x ∷ xs) h = ground (arith, count_by-none p xs)

  pub exists_by-append :
      (p : A → Bool) (xs ys : List A) → exists_by p (xs ++ ys) ≡ (exists_by p xs || exists_by p ys)
  exists_by-append p [] ys = refl
  exists_by-append p (x ∷ xs) ys = ground (arith, exists_by-append p xs ys)

  pub count_by-reject_other :
      (p q : A → Bool) (xs : List A)
      → ((x : A) → q x ≡ true → p x ≡ false)
      → count_by p (reject_by q xs) ≡ count_by p xs
  count_by-reject_other p q [] h = refl
  count_by-reject_other p q (x ∷ xs) h = ground (arith, h x, count_by-reject_other p q xs h)

  pub count_by-update_by :
      (p q : A → Bool) (f : A → A) (xs : List A)
      → ((x : A) → p (f x) ≡ p x)
      → count_by p (update_by q f xs) ≡ count_by p xs
  count_by-update_by p q f [] h = refl
  count_by-update_by p q f (x ∷ xs) h = ground (arith, h x, count_by-update_by p q f xs h)

-- `sort` by a key: stable, `before` is the strict order of the keys.
unfoldable pub insert_by {ℓ} : {A : Type ℓ} → (A → A → Bool) → A → List A → List A
insert_by before x [] = x ∷ []
insert_by before x (y ∷ ys) = if before y x then y ∷ insert_by before x ys else x ∷ y ∷ ys

unfoldable pub sort_by {ℓ} : {A : Type ℓ} → (A → A → Bool) → List A → List A
unfolding insert_by
sort_by before [] = []
sort_by before (x ∷ xs) = insert_by before x (sort_by before xs)

module _ {ℓ} {V : Type ℓ} where
  abbrev pub assign : (ℕ → V) → ℕ → V → ℕ → V
  assign f k v j = if k == j then v else f j
