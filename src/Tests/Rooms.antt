-- ===== src/Tests/Rooms.antt =====
-- Runs of commands in rooms.
use wikikracja.Common.{◌≡◌, true, false, some, [], ◌∷◌, arith}
use wikikracja.Common.Texts.{codes}
use wikikracja.Chat.Messages.{Message, Chat, Person, Vote, Command, execute, message_at}
use wikikracja.Chat.Messages.Votes.{AllSingle, EndsSingle, execute-EndsSingle}
use wikikracja.Chat.Messages.Access.{is_done, may, is_own, execute_done}

abbrev member : Person
member = record { id = 2; is_authenticated = true }

abbrev message : Message
message = record {
  id = 9;
  room = 4;
  sender = some 3;
  text = codes "hi";
  history = [];
  reactions = record { upvotes = 3 ∷ []; downvotes = 2 ∷ []; bulb = []; question = 2 ∷ [] };
}

abbrev chat : Chat
chat = record {
  rooms = record { id = 4; is_public = false; allowed = 2 ∷ 3 ∷ [] } ∷ [];
  messages = message ∷ [];
}

-- Each member has one vote at most on the message.
chat-AllSingle : AllSingle 2 chat
chat-AllSingle = ((omega arith, (omega arith, omega arith)), tt)

execute-EndsSingle_example : EndsSingle 2 (execute member (Command.add_vote Vote.upvote 9) chat)
execute-EndsSingle_example =
    execute-EndsSingle member (Command.add_vote Vote.upvote 9) chat 2 chat-AllSingle

execute_done_example :
    is_done (execute member (Command.edit_message 9 (codes "ho")) chat)
    ≡ may member chat
        (is_own (Command.edit_message 9 (codes "ho")) member)
        (message_at 9 chat.messages)
execute_done_example = execute_done member (Command.edit_message 9 (codes "ho")) chat
