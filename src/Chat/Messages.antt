-- ===== src/Chat/Messages.antt =====
-- Messages of rooms and what users do with them: chat/services.py (`ChatRepository`), chat/reactions.py
-- (`ChatReactionService`), chat/room_repository.py (`ensure_room_access`) and the commands of
-- chat/command_handlers.py. Attachments and what is broadcast are left out, and texts come
-- sanitized.
pub mod Votes
pub mod Access
use wikikracja.Common.{
  ℕ, ◌+◌, Bool, true, false, not, ◌&&◌, ◌||◌, Option, none, some, List, [], ◌∷◌, ◌++◌, ◌==◌,
  if◌then◌else◌, refers, length, exists_by, update_by,
}
use wikikracja.Common.Texts.{Text, text_eq}

-- `ClientError`, by its codes.
pub data ClientError : Type 0 where
  user_has_to_login access_denied message_invalid invalid_reaction : ClientError

-- The JSON of reactions: the keys that are missing hold nobody.
pub record Reactions : Type 0 where
  pub upvotes : List ℕ
  pub downvotes : List ℕ
  pub bulb : List ℕ
  pub question : List ℕ

-- `history` holds the earlier texts, the latest last.
pub record Message : Type 0 where
  pub id : ℕ
  pub room : ℕ
  pub sender : Option ℕ
  pub text : Text
  pub history : List Text
  pub reactions : Reactions

pub record Room : Type 0 where
  pub id : ℕ
  pub is_public : Bool
  pub allowed : List ℕ

-- A message belongs to a room of the table.
pub record Chat : Type 0 where
  pub rooms : List Room
  pub messages : List Message

pub record Person : Type 0 where
  pub id : ℕ
  pub is_authenticated : Bool

abbrev pub is_in : ℕ → List ℕ → Bool
is_in k ks = exists_by (λ j. j == k) ks

-- `ensure_room_access`: the error, if any.
unfoldable pub ensure_room_access : Person → Room → Option ClientError
ensure_room_access user room =
    if not user.is_authenticated
    then some user_has_to_login
    else if not room.is_public && not (is_in user.id room.allowed)
    then some access_denied
    else none

unfoldable pub room_of : ℕ → List Room → Option Room
room_of k [] = none
room_of k (r ∷ rs) = if r.id == k then some r else room_of k rs

unfoldable pub message_at : ℕ → List Message → Option Message
message_at k [] = none
message_at k (m ∷ ms) = if m.id == k then some m else message_at k ms

pub data Outcome : Type 0 where
  done : Chat → Outcome
  failed : ClientError → Outcome

abbrev pub after_access : Option ClientError → Outcome → Outcome
after_access none out = out
after_access (some e) out = failed e

unfoldable pub in_room : Person → Option Room → Outcome → Outcome
unfolding ensure_room_access
in_room user none out = failed message_invalid
in_room user (some room) out = after_access (ensure_room_access user room) out

-- `_get_accessible_message`, and what is done with the message.
unfoldable pub on_message : Person → Chat → Option Message → (Message → Outcome) → Outcome
unfolding in_room room_of
on_message user c none f = failed message_invalid
on_message user c (some m) f = in_room user (room_of m.room c.rooms) (f m)

unfoldable pub with_message : Person → ℕ → Chat → (Message → Outcome) → Outcome
unfolding on_message message_at
with_message user k c f = on_message user c (message_at k c.messages) f

abbrev pub has_key : ℕ → Message → Bool
has_key k m = m.id == k

-- `m.save(update_fields=...)`
abbrev pub saved : ℕ → (Message → Message) → Chat → Chat
saved k f c = record c { messages = update_by (has_key k) f c.messages }

-- `list.remove`, if the value is there.
unfoldable pub remove_first : ℕ → List ℕ → List ℕ
remove_first k [] = []
remove_first k (j ∷ ks) = if j == k then ks else j ∷ remove_first k ks

-- The votes of the protocol; any other text is a vote as well.
pub data Vote : Type 0 where
  upvote downvote other_vote : Vote

-- `ChatRepository.add_vote` on the reactions
unfoldable pub with_vote : Vote → ℕ → Reactions → Reactions
unfolding remove_first
with_vote Vote.upvote user r = record r {
  upvotes = remove_first user r.upvotes ++ user ∷ [];
  downvotes = remove_first user r.downvotes;
}
with_vote _ user r = record r {
  upvotes = remove_first user r.upvotes;
  downvotes = remove_first user r.downvotes ++ user ∷ [];
}

-- `ChatRepository.remove_vote` on the reactions
unfoldable pub without_vote : Vote → ℕ → Reactions → Reactions
unfolding remove_first
without_vote Vote.upvote user r = record r { upvotes = remove_first user r.upvotes }
without_vote Vote.downvote user r = record r { downvotes = remove_first user r.downvotes }
without_vote Vote.other_vote user r = r

-- `get_vote`
unfoldable pub get_vote : ℕ → Reactions → Option Vote
get_vote user r =
    if is_in user r.upvotes
    then some Vote.upvote
    else if is_in user r.downvotes
    then some Vote.downvote
    else none

abbrev pub same_vote : Vote → Vote → Bool
same_vote Vote.upvote Vote.upvote = true
same_vote Vote.downvote Vote.downvote = true
same_vote _ _ = false

-- `OPPOSITE_VOTES`, and the removal of the opposite vote.
unfoldable pub without_opposite : Vote → ℕ → Reactions → Reactions
unfolding without_vote
without_opposite Vote.upvote user r = without_vote Vote.downvote user r
without_opposite Vote.downvote user r = without_vote Vote.upvote user r
without_opposite Vote.other_vote user r = r

unfoldable pub vote_over : Option Vote → Vote → ℕ → Reactions → Reactions
unfolding with_vote without_opposite
vote_over none v user r = with_vote v user r
vote_over (some w) v user r =
    if same_vote w v then r else with_vote v user (without_opposite v user r)

-- `ChatReactionService.add_vote` on the reactions
unfoldable pub voted : Vote → ℕ → Reactions → Reactions
unfolding vote_over get_vote
voted v user r = vote_over (get_vote user r) v user r

abbrev pub toggled_list : ℕ → List ℕ → List ℕ
toggled_list k ks = if is_in k ks then remove_first k ks else ks ++ k ∷ []

-- The reactions that are valid, and any other.
pub data Reaction : Type 0 where
  bulb question unknown : Reaction

-- `ChatRepository.toggle_reaction` on the reactions
unfoldable pub toggled : Reaction → ℕ → Reactions → Reactions
unfolding remove_first
toggled Reaction.bulb user r = record r { bulb = toggled_list user r.bulb }
toggled Reaction.question user r = record r { question = toggled_list user r.question }
toggled Reaction.unknown user r = r

abbrev pub reacted : (Reactions → Reactions) → Message → Message
reacted f m = record m { reactions = f m.reactions }

-- `edit_message_and_history`
abbrev pub edited : Text → Message → Message
edited t m = record m { text = t; history = m.history ++ m.text ∷ [] }

-- `edit_message`: only the sender may, and a text that is the same changes nothing.
unfoldable pub edit_found : Person → Text → Chat → Message → Outcome
unfolding text_eq
edit_found user t c m =
    if not (refers m.sender user.id)
    then failed access_denied
    else if text_eq m.text t
    then done c
    else done (saved m.id (edited t) c)

-- The commands that change messages.
pub data Command : Type 0 where
  add_vote : Vote → ℕ → Command
  remove_vote : Vote → ℕ → Command
  react : Reaction → ℕ → Command
  edit_message : ℕ → Text → Command

unfoldable pub react_valid : Person → Reaction → ℕ → Chat → Outcome
unfolding with_message toggled
react_valid user Reaction.unknown k c = failed invalid_reaction
react_valid user r k c = with_message user k c (λ m. done (saved k (reacted (toggled r user.id)) c))

-- `ChatCommandHandlers.dispatch`
unfoldable pub execute : Person → Command → Chat → Outcome
unfolding with_message voted without_vote react_valid edit_found
execute user (Command.add_vote v k) c =
    with_message user k c (λ m. done (saved k (reacted (voted v user.id)) c))
execute user (Command.remove_vote v k) c =
    with_message user k c (λ m. done (saved k (reacted (without_vote v user.id)) c))
execute user (Command.react r k) c = react_valid user r k c
execute user (Command.edit_message k t) c = with_message user k c (edit_found user t c)
