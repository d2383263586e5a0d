-- ===== src/Citizens/Reputation.antt =====
-- The threshold of reputation (obywatele/views.py), the rates that citizens give each other
-- (`obywatele_szczegoly`), and their sums (count_citizens, `count_reputation`).
pub mod Threshold
use wikikracja.Common.{
  ℕ, ◌+◌, ◌*◌, Bool, true, false, not, ◌&&◌, Option, none, some, List, [], ◌∷◌, ◌++◌, map, ◌==◌,
  if◌then◌else◌, ltb, leb, exists_by, count_by, reject_by, update_by, filter_by, is_some,
}
use wikikracja.Common.Int.{ℤ, pos, negsuc, ◌+ℤ◌, sub_ℕ}
use wikikracja.Citizens.Model.{User, Uzytkownik, Rate, Db, is_user, is_profile, profile_active}

-- `population`
pub population : Db → ℕ
population db = count_by (λ u. u.is_active) db.users

-- `required_reputation`, from the population and the parameter `acceptance`.
unfoldable pub required_reputation : ℕ → ℕ → ℤ
required_reputation pop acceptance =
    if ltb pop (acceptance * 2) then sub_ℕ pop acceptance else pos acceptance

abbrev pub given : ℕ → ℕ → Rate → Bool
given obywatel kandydat r = r.obywatel == obywatel && r.kandydat == kandydat

-- The rate of one profile for another is set, in its row or in a new one.
pub set_rate : ℕ → ℕ → ℤ → List Rate → List Rate
set_rate obywatel kandydat z [] =
    record { kandydat = kandydat; obywatel = obywatel; rate = some z } ∷ []
set_rate obywatel kandydat z (r ∷ rs) =
    if given obywatel kandydat r
    then record r { rate = some z } ∷ rs
    else r ∷ set_rate obywatel kandydat z rs

pub data Action : Type 0 where
  accept reject reset other : Action

abbrev pub action_rate : Action → Option ℤ
action_rate accept = some (pos 1)
action_rate reject = some (negsuc 0)
action_rate reset = some (pos 0)
action_rate other = none

-- The POST of `obywatele_szczegoly`: nobody rates themselves.
pub rate_candidate : ℕ → ℕ → Action → Db → Db
unfolding set_rate
rate_candidate citizen candidate action db = elim (action_rate action) [
  | none ↦ db
  | some z ↦ record db {
    rates = if candidate == citizen then db.rates else set_rate citizen candidate z db.rates;
  }
]

-- SQL's `SUM`, which passes over NULL and is NULL where nothing is left.
abbrev plus : Option ℤ → Option ℤ → Option ℤ
plus none b = b
plus (some a) none = some a
plus (some a) (some b) = some (a +ℤ b)

pub sum_rates : ℕ → List Rate → Option ℤ
sum_rates k [] = none
sum_rates k (r ∷ rs) = if r.kandydat == k then plus r.rate (sum_rates k rs) else sum_rates k rs

abbrev pub is_rated : ℕ → Rate → Bool
is_rated k r = r.kandydat == k

-- The new reputation of a profile.
pub reputation_of : ℕ → List Rate → Option ℤ
unfolding sum_rates
reputation_of k rates = if exists_by (is_rated k) rates then sum_rates k rates else some (pos 0)

-- A profile without a user.
abbrev pub is_orphan : List User → Uzytkownik → Bool
is_orphan users p = elim p.uid [ none ↦ true | some k ↦ not (exists_by (is_user k) users) ]

abbrev pub without_profile : ℕ → Db → Db
without_profile k db = record db {
  profiles = reject_by (is_profile k) db.profiles;
  rates = reject_by (λ r. if r.kandydat == k then true else r.obywatel == k) db.rates;
}

-- One round of the loop of `count_reputation`: the rates of a deleted profile go with it.
count_one : Db → Uzytkownik → Db
unfolding reputation_of
count_one db p = if is_orphan db.users p then without_profile p.id db else record db {
  profiles =
      update_by (is_profile p.id) (λ q. record q { reputation = reputation_of p.id db.rates })
        db.profiles;
}

pub count_each : List Uzytkownik → Db → Db
unfolding count_one
count_each [] db = db
count_each (p ∷ ps) db = count_each ps (count_one db p)

-- `count_reputation`
pub count_reputation : Db → Db
unfolding count_each
count_reputation db = count_each db.profiles db

-- `Uzytkownik.objects.filter(uid__is_active=True)`, each but the new citizen gets its rate.
grant_each : ℕ → List Uzytkownik → List Rate → List Rate
unfolding set_rate
grant_each new [] rates = rates
grant_each new (k ∷ ks) rates =
    grant_each new ks (if new == k.id then rates else set_rate new k.id (pos 1) rates)

-- `grant_automatic_reputation`
unfoldable pub grant_automatic_reputation : ℕ → ℕ → Db → Db
unfolding grant_each population
grant_automatic_reputation acceptance new db =
    if ltb (acceptance * 2) (population db) then db else record db {
      rates = grant_each new (filter_by (profile_active db.users) db.profiles) db.rates;
    }
