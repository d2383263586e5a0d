-- ===== src/Chat/Messages/Access.antt =====
-- Who may do what with a message (chat/room_repository.py `ensure_room_access`, chat/command_handlers.py).
use wikikracja.Common.{
  ℕ, ◌≡◌, refl, sym, Bool, true, false, ◌&&◌, ◌||◌, Option, none, some, refers, Bool-cases, inl,
  inr, arith,
}
use wikikracja.Common.Texts.{Text, text_eq}
use wikikracja.Chat.Messages.{
  Message, Room, Chat, Person, is_in, Outcome, done, failed, Reaction, Command, message_at, room_of,
  on_message, in_room, ensure_room_access, with_message, edit_found, react_valid, execute,
}

abbrev pub is_done : Outcome → Bool
is_done (done c) = true
is_done (failed e) = false

-- The user may read the room: it is public, or the user is one of its members.
abbrev pub may_read : Person → Option Room → Bool
may_read user none = false
may_read user (some room) = room.is_public || is_in user.id room.allowed

abbrev pub message_id : Command → ℕ
message_id (Command.add_vote v k) = k
message_id (Command.remove_vote v k) = k
message_id (Command.react r k) = k
message_id (Command.edit_message k t) = k

-- What a command asks for beside access to the room: a text is changed by its sender only, and a
-- reaction is one of the two.
abbrev pub is_own : Command → Person → Message → Bool
is_own (Command.add_vote v k) user m = true
is_own (Command.remove_vote v k) user m = true
is_own (Command.react Reaction.bulb k) user m = true
is_own (Command.react Reaction.question k) user m = true
is_own (Command.react Reaction.unknown k) user m = false
is_own (Command.edit_message k t) user m = refers m.sender user.id

abbrev pub may : Person → Chat → (Message → Bool) → Option Message → Bool
may user c p none = false
may user c p (some m) = user.is_authenticated && (may_read user (room_of m.room c.rooms) && p m)

in_room_done :
    (user : Person) (o : Option Room) (out : Outcome)
    → is_done (in_room user o out) ≡ (user.is_authenticated && (may_read user o && is_done out))
unfolding in_room ensure_room_access
in_room_done user none out = ground arith
in_room_done user (some room) out = ground arith

on_message_done :
    (user : Person) (c : Chat) (o : Option Message) (f : Message → Outcome) (p : Message → Bool)
    → ((m : Message) → is_done (f m) ≡ p m)
    → is_done (on_message user c o f) ≡ may user c p o
unfolding on_message
on_message_done user c none f p h = refl
on_message_done user c (some m) f p h =
    ground (arith, in_room_done user (room_of m.room c.rooms) (f m), h m)

edit_found_done :
    (user : Person) (t : Text) (c : Chat) (m : Message)
    → is_done (edit_found user t c m) ≡ refers m.sender user.id
unfolding edit_found
edit_found_done user t c m = elim (Bool-cases (refers m.sender user.id)) [
  | inr stranger ↦ rw stranger refl
  | inl own ↦ elim (Bool-cases (text_eq m.text t)) [
    | inl same ↦ rw own (rw same refl)
    | inr new ↦ rw own (rw new refl)
  ]
]

may_never : (user : Person) (c : Chat) (o : Option Message) → may user c (λ m. false) o ≡ false
may_never user c none = refl
may_never user c (some m) = ground arith

-- A command on a message is carried out exactly when the user is logged in, the message is there, its
-- room is public or has the user as a member, and the command is the sender's if it edits the text
-- and one of the two reactions if it reacts; otherwise it fails.
pub execute_done :
    (user : Person) (command : Command) (c : Chat)
    → is_done (execute user command c)
      ≡ may user c (is_own command user) (message_at (message_id command) c.messages)
unfolding execute with_message react_valid
execute_done user (Command.add_vote v k) c = on_message_done user c _ _ _ (λ m. refl)
execute_done user (Command.remove_vote v k) c = on_message_done user c _ _ _ (λ m. refl)
execute_done user (Command.react r k) c = by_reaction r
  where
    by_reaction :
        (r : Reaction)
        → is_done (react_valid user r k c)
          ≡ may user c (is_own (Command.react r k) user) (message_at k c.messages)
    by_reaction Reaction.unknown = sym (may_never user c (message_at k c.messages))
    by_reaction Reaction.bulb = on_message_done user c _ _ _ (λ m. refl)
    by_reaction Reaction.question = on_message_done user c _ _ _ (λ m. refl)
execute_done user (Command.edit_message k t) c =
    on_message_done user c _ (edit_found user t c) _ (λ m. edit_found_done user t c m)
