-- ===== src/Notifications/Broadcast/Audience.antt =====
-- Who is told by a broadcast of core/notifications.py.
use wikikracja.Common.{
  ℕ, ◌≡◌, refl, Bool, true, false, ◌&&◌, Option, none, some, List, [], ◌∷◌, ◌==◌, exists_by,
  filter_by, Bool-cases, inl, inr, arith,
}
use wikikracja.Notifications.Policy.{Category}
use wikikracja.Notifications.Model.{
  User, World, Topic, field_of, is_subscribed, has_enabled, ids_of, push_user_ids, user_of, among,
}
use wikikracja.Notifications.Broadcast.{narrowed}

-- No two users have the same primary key.
abbrev pub IsKeyed : List User → Type 0
IsKeyed [] = Unit
IsKeyed (u ∷ us) = (exists_by (λ v. v.id == u.id) us ≡ false) × IsKeyed us

abbrev pub holds_of : Option User → (User → Bool) → Bool
holds_of none p = false
holds_of (some u) p = p u

-- Whether a user has what a topic asks for: active, subscribed, and the category turned on.
abbrev pub accepts : Option Category → User → Bool
accepts none u = is_subscribed u
accepts (some c) u = is_subscribed u && has_enabled c u

-- Whether a user of the table accepts the topic and is among the recipients, when these are given.
abbrev pub takes : List User → Option Topic → Option (List ℕ) → ℕ → Bool
takes users topic recipients k =
    holds_of (user_of users k) (accepts (field_of topic)) && among recipients k

ids_of-absent :
    (p : User → Bool) (us : List User) (k : ℕ)
    → exists_by (λ v. v.id == k) us ≡ false
    → exists_by (λ i. i == k) (ids_of (filter_by p us)) ≡ false
ids_of-absent p [] k h = refl
ids_of-absent p (u ∷ us) k h = ground (arith, ids_of-absent p us k)

ids_of-filter_by :
    (p : User → Bool) (us : List User) (k : ℕ)
    → IsKeyed us
    → exists_by (λ i. i == k) (ids_of (filter_by p us)) ≡ holds_of (user_of us k) p
unfolding user_of
ids_of-filter_by p [] k h = refl
ids_of-filter_by p (u ∷ us) k h = elim (Bool-cases (u.id == k)) [
  | inl same ↦ ground (arith, ids_of-absent p us k)
  | inr other ↦ ground (arith, ids_of-filter_by p us k h.1)
]

exists_by-both :
    (k : ℕ) (rs ids : List ℕ)
    → exists_by (λ i. i == k) (filter_by (λ j. exists_by (λ r. r == j) rs) ids)
      ≡ (exists_by (λ i. i == k) ids && exists_by (λ r. r == k) rs)
exists_by-both k rs [] = refl
exists_by-both k rs (i ∷ ids) = ground (arith, exists_by-both k rs ids)

among-narrowed :
    (ids rs : Option (List ℕ)) (k : ℕ) → among (narrowed ids rs) k ≡ (among ids k && among rs k)
among-narrowed ids none k = ground arith
among-narrowed none (some rs) k = ground arith
among-narrowed (some ids) (some rs) k = exists_by-both k rs ids

-- The set of recipients of a broadcast, for one user.
abbrev pub ids_for : World → Option Topic → Option (List ℕ) → Option (List ℕ)
ids_for w topic rs = narrowed (push_user_ids w topic) rs

among-push_user_ids :
    (w : World) (topic : Option Topic) (k : ℕ)
    → w.database ≡ true
    → IsKeyed w.users
    → (holds_of (user_of w.users k) is_subscribed && among (push_user_ids w topic) k)
      ≡ holds_of (user_of w.users k) (accepts (field_of topic))
unfolding push_user_ids
among-push_user_ids w none k h d = ground arith
among-push_user_ids w (some Topic.unknown) k h d = ground arith
among-push_user_ids w (some (Topic.known c)) k h d =
    ground (arith, ids_of-filter_by (λ u. is_subscribed u && has_enabled c u) w.users k d)

pub subscribed_among :
    (w : World) (topic : Option Topic) (rs : Option (List ℕ)) (k : ℕ)
    → w.database ≡ true
    → IsKeyed w.users
    → (holds_of (user_of w.users k) is_subscribed && among (ids_for w topic rs) k)
      ≡ takes w.users topic rs k
subscribed_among w topic rs k h d =
    ground (arith, among-push_user_ids w topic k h d, among-narrowed (push_user_ids w topic) rs k)
