-- ===== src/Chat/Messages/Votes.antt =====
-- Votes and reactions on messages through any commands (chat/services.py, chat/reactions.py).
use wikikracja.Common.{
  ℕ, ◌+◌, ◌≤◌, ◌≡◌, refl, Bool, false, Option, none, some, List, [], ◌∷◌, ◌++◌, ◌==◌, refers, bit,
  update_by, count_by, Bool-cases, inl, inr, arith, count_by-append, count_by-none,
}
use wikikracja.Common.Texts.{Text, text_eq}
use wikikracja.Chat.Messages.{
  ClientError, Reactions, Message, Room, Chat, Person, is_in, Outcome, done, failed, Vote, Reaction,
  Command, remove_first, with_vote, without_vote, get_vote, vote_over, without_opposite, voted,
  toggled, reacted, edited, has_key, message_at, room_of, on_message, in_room, ensure_room_access,
  with_message, edit_found, same_vote, toggled_list, after_access, react_valid, execute,
}

abbrev pub times : ℕ → List ℕ → ℕ
times k ks = count_by (λ j. j == k) ks

-- The user has one vote at most, for or against, and each reaction once at most.
abbrev pub IsSingle : ℕ → Reactions → Type 0
IsSingle k r =
    (times k r.upvotes + times k r.downvotes ≤ 1)
    × ((times k r.bulb ≤ 1) × (times k r.question ≤ 1))

times-remove_first : (k u : ℕ) (ks : List ℕ) → times k (remove_first u ks) ≤ times k ks
unfolding remove_first
times-remove_first k u [] = omega arith
times-remove_first k u (j ∷ ks) = ground (arith, times-remove_first k u ks)

times_removed : (k : ℕ) (ks : List ℕ) → times k (remove_first k ks) + bit (is_in k ks) ≡ times k ks
unfolding remove_first
times_removed k [] = refl
times_removed k (j ∷ ks) = ground (arith, times_removed k ks)

times_in : (k : ℕ) (ks : List ℕ) → is_in k ks ≡ false → times k ks ≡ 0
times_in k ks h = count_by-none (λ j. j == k) ks h

times_present : (k : ℕ) (ks : List ℕ) → bit (is_in k ks) ≤ times k ks
times_present k [] = omega arith
times_present k (j ∷ ks) = ground (arith, times_present k ks)

-- A user who goes from both lists to one of them is there once.
times_moved :
    (k u : ℕ) (xs ys : List ℕ)
    → times k xs + times k ys ≤ 1
    → times k (remove_first u xs ++ u ∷ []) + times k (remove_first u ys) ≤ 1
times_moved k u xs ys s = ground (
  arith,
  count_by-append (λ j. j == k) (remove_first u xs) (u ∷ []),
  times-remove_first k u xs,
  times-remove_first k u ys,
  times_removed u xs,
  times_removed u ys,
  times_in u xs,
  times_in u ys,
)

with_vote-IsSingle :
    (k : ℕ) (v : Vote) (u : ℕ) (r : Reactions) → IsSingle k r → IsSingle k (with_vote v u r)
unfolding with_vote
with_vote-IsSingle k Vote.upvote u r s = (times_moved k u r.upvotes r.downvotes s.0, s.1)
with_vote-IsSingle k Vote.downvote u r s =
    (ground (arith, times_moved k u r.downvotes r.upvotes), s.1)
with_vote-IsSingle k Vote.other_vote u r s =
    (ground (arith, times_moved k u r.downvotes r.upvotes), s.1)

without_vote-IsSingle :
    (k : ℕ) (v : Vote) (u : ℕ) (r : Reactions) → IsSingle k r → IsSingle k (without_vote v u r)
unfolding without_vote
without_vote-IsSingle k Vote.upvote u r s = (ground (arith, times-remove_first k u r.upvotes), s.1)
without_vote-IsSingle k Vote.downvote u r s =
    (ground (arith, times-remove_first k u r.downvotes), s.1)
without_vote-IsSingle k Vote.other_vote u r s = s

without_opposite-IsSingle :
    (k : ℕ) (v : Vote) (u : ℕ) (r : Reactions) → IsSingle k r → IsSingle k (without_opposite v u r)
unfolding without_opposite
without_opposite-IsSingle k Vote.upvote u r s = without_vote-IsSingle k Vote.downvote u r s
without_opposite-IsSingle k Vote.downvote u r s = without_vote-IsSingle k Vote.upvote u r s
without_opposite-IsSingle k Vote.other_vote u r s = s

vote_over-IsSingle :
    (k : ℕ) (o : Option Vote) (v : Vote) (u : ℕ) (r : Reactions)
    → IsSingle k r
    → IsSingle k (vote_over o v u r)
unfolding vote_over
vote_over-IsSingle k none v u r s = with_vote-IsSingle k v u r s
vote_over-IsSingle k (some w) v u r s = elim (Bool-cases (same_vote w v)) [
  | inl same ↦ rw same s
  | inr other ↦
      rw other
        (with_vote-IsSingle k v u (without_opposite v u r) (without_opposite-IsSingle k v u r s))
]

times_toggled : (k u : ℕ) (ks : List ℕ) → times k ks ≤ 1 → times k (toggled_list u ks) ≤ 1
times_toggled k u ks s = elim (Bool-cases (is_in u ks)) [
  | inl there ↦ ground (arith, times-remove_first k u ks)
  | inr away ↦ ground (arith, count_by-append (λ j. j == k) ks (u ∷ []), times_in u ks)
]

toggled-IsSingle :
    (k : ℕ) (q : Reaction) (u : ℕ) (r : Reactions) → IsSingle k r → IsSingle k (toggled q u r)
unfolding toggled
toggled-IsSingle k Reaction.bulb u r s = (s.0, (times_toggled k u r.bulb s.1.0, s.1.1))
toggled-IsSingle k Reaction.question u r s = (s.0, (s.1.0, times_toggled k u r.question s.1.1))
toggled-IsSingle k Reaction.unknown u r s = s

abbrev pub AllIn : ℕ → List Message → Type 0
AllIn k [] = Unit
AllIn k (m ∷ ms) = IsSingle k m.reactions × AllIn k ms

-- Every message has single votes and reactions of the user.
abbrev pub AllSingle : ℕ → Chat → Type 0
AllSingle k c = AllIn k c.messages

AllIn-update_by :
    (k : ℕ) (p : Message → Bool) (f : Message → Message) (ms : List Message)
    → ((m : Message) → IsSingle k m.reactions → IsSingle k (f m).reactions)
    → AllIn k ms
    → AllIn k (update_by p f ms)
AllIn-update_by k p f [] h a = tt
AllIn-update_by k p f (m ∷ ms) h a = elim (Bool-cases (p m)) [
  | inl hit ↦ rw hit (h m a.0, AllIn-update_by k p f ms h a.1)
  | inr miss ↦ rw miss (a.0, AllIn-update_by k p f ms h a.1)
]

abbrev pub EndsSingle : ℕ → Outcome → Type 0
EndsSingle k (done c) = AllSingle k c
EndsSingle k (failed e) = Unit

in_room-EndsSingle :
    (k : ℕ) (user : Person) (o : Option Room) (out : Outcome)
    → EndsSingle k out
    → EndsSingle k (in_room user o out)
unfolding in_room
in_room-EndsSingle k user none out s = tt
in_room-EndsSingle k user (some room) out s = by_access (ensure_room_access user room)
  where
    by_access : (e : Option ClientError) → EndsSingle k (after_access e out)
    by_access none = s
    by_access (some e) = tt

with_message-EndsSingle :
    (k : ℕ) (user : Person) (i : ℕ) (c : Chat) (f : Message → Outcome)
    → ((m : Message) → EndsSingle k (f m))
    → EndsSingle k (with_message user i c f)
unfolding with_message on_message
with_message-EndsSingle k user i c f s = by_message (message_at i c.messages)
  where
    by_message : (o : Option Message) → EndsSingle k (on_message user c o f)
    by_message none = tt
    by_message (some m) = in_room-EndsSingle k user (room_of m.room c.rooms) (f m) (s m)

edit_found-EndsSingle :
    (k : ℕ) (user : Person) (t : Text) (c : Chat) (m : Message)
    → AllSingle k c
    → EndsSingle k (edit_found user t c m)
unfolding edit_found
edit_found-EndsSingle k user t c m a = elim (Bool-cases (refers m.sender user.id)) [
  | inr stranger ↦ rw stranger tt
  | inl own ↦ elim (Bool-cases (text_eq m.text t)) [
    | inl same ↦ rw own (rw same a)
    | inr new ↦
        rw own (rw new (AllIn-update_by k (has_key m.id) (edited t) c.messages (λ n s. s) a))
  ]
]

-- Whatever command a user sends, if it is carried out, every user still has one vote at most on each
-- message, for or against, and each reaction once at most, provided that it was so before.
pub execute-EndsSingle :
    (user : Person) (command : Command) (c : Chat) (k : ℕ)
    → AllSingle k c
    → EndsSingle k (execute user command c)
unfolding execute voted react_valid
execute-EndsSingle user (Command.add_vote v i) c k a = with_message-EndsSingle k user i c _ (λ m.
    AllIn-update_by k (has_key i) (reacted (voted v user.id)) c.messages
      (λ n s. vote_over-IsSingle k (get_vote user.id n.reactions) v user.id n.reactions s) a)
execute-EndsSingle user (Command.remove_vote v i) c k a = with_message-EndsSingle k user i c _ (λ m.
    AllIn-update_by k (has_key i) (reacted (without_vote v user.id)) c.messages
      (λ n s. without_vote-IsSingle k v user.id n.reactions s) a)
execute-EndsSingle user (Command.react q i) c k a = by_reaction q
  where
    by_reaction : (q : Reaction) → EndsSingle k (react_valid user q i c)
    by_reaction Reaction.unknown = tt
    by_reaction Reaction.bulb = with_message-EndsSingle k user i c _ (λ m.
        AllIn-update_by k (has_key i) (reacted (toggled Reaction.bulb user.id)) c.messages
          (λ n s. toggled-IsSingle k Reaction.bulb user.id n.reactions s) a)
    by_reaction Reaction.question = with_message-EndsSingle k user i c _ (λ m.
        AllIn-update_by k (has_key i) (reacted (toggled Reaction.question user.id)) c.messages
          (λ n s. toggled-IsSingle k Reaction.question user.id n.reactions s) a)
execute-EndsSingle user (Command.edit_message i t) c k a =
    with_message-EndsSingle k user i c (edit_found user t c)
      (λ m. edit_found-EndsSingle k user t c m a)
