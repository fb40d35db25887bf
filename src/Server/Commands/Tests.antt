-- ===== src/Server/Commands/Tests.antt =====
-- Runs of the commands of eLibrary/src/client/eLibrary_client_parse.c.
use morning_projects.Common.{
  ◌≡◌, refl, true, none, some, [], ◌∷◌, ◌++◌, ◌==◌, if◌then◌else◌, arith, ◌+◌,
}
use morning_projects.Server.{receipt_in, set_user, attached, Library, Contact}
use morning_projects.Server.Bytes.{Text}
use morning_projects.Server.Messages.{get_msg_node, msg_sent}
use morning_projects.Server.Users.{new_user}
use morning_projects.Server.Friends.Distinct.{IsCircle, with_friend}
use morning_projects.Server.Friends.Removal.{remaining}
use morning_projects.Server.Books.{new_book}
use morning_projects.Server.Brief.{printed}
use morning_projects.Server.Brief.Usage.{bytes}
use morning_projects.Server.Messages.{no_rounds}
use morning_projects.Server.Commands.{CommandEnv, input_add, input_rm, input_search}
use morning_projects.Server.Commands.Queries.{input_whatsup, input_wow, input_buy}
use morning_projects.Server.Commands.Inbox.{command_msg}
use morning_projects.Server.Receiver.{input_msg}
use morning_projects.Server.Commands.Yields.{Holds}
use morning_projects.Server.Commands.Session.{
  Stays, commands, arrives, cmd_add, cmd_buy, take_steps, take_steps-IsRegistered,
}
use morning_projects.Server.Commands.Mute.{Mute, Idle, input_buy-IsMute}
use morning_projects.Server.Commands.Replies.{
  IsSession, friend_cmd, plain_cmd, error_reply, input_add-IsCircle, input_rm-rm_friend,
}
use morning_projects.Server.Commands.Reading.{IsTallied, command_msg-IsTallied}

abbrev ann : Text
ann = 97 ∷ 110 ∷ 110 ∷ []

abbrev bob : Text
bob = 98 ∷ 111 ∷ 98 ∷ []

abbrev emma : Text
emma = 69 ∷ 109 ∷ []

abbrev from_ann : Contact
from_ann = record {
  contact = ann;
  num_msg = 1;
  num_unread = 1;
  contexts = record { io = receipt_in; unread = true; datetime = 3; msg = emma } ∷ [];
}

-- Ann, who has the book, and Bob, who has a message from her
abbrev town : Library
town = record {
  users = λ p.
      if p == 1
      then record (new_user 20 ann []) { books = 7 ∷ []; num_books = 1 }
      else record (new_user 20 bob []) {
        msg_box = record { num_msg = 1; num_unread = 1; msgs = from_ann ∷ [] };
      };
  listed = 1 ∷ 2 ∷ [];
  num_users = 2;
  books = λ p. new_book 1 emma;
  book_list = 7 ∷ [];
  book_tail = attached;
  num_books = 1;
  recent = [];
}

-- memory and locks for all
abbrev calm : CommandEnv
calm = record {
  fuel = 9;
  host_locks = true;
  target_locks = true;
  node_memory = true;
  friend_memory = (true, true);
  tag_memory = (true, true);
  copy_memory = [];
  hty_memory = 9;
  msg_memory = (true, true);
  brief_memory = true;
  reply_memory = true;
  new_book = record {
    book_memory = true;
    acty_memory = true;
    private_memory = true;
    public_memory = true;
    address = 8;
  };
  group = none;
  exchange_ready = true;
  exchange = no_rounds;
  date = [];
  now = 4;
  print = λ n. 35 ∷ [];
  lite = λ n. 58 ∷ [];
}

bob-IsSession : IsSession calm town bob 2
bob-IsSession = record { host_locks = refl; target_locks = refl; fuel = omega arith; known = refl }

take_steps-IsRegistered_example : Holds (Stays town) (
    take_steps
      (commands cmd_add calm bob (friend_cmd ann)
        ∷ arrives calm (msg_sent ann bob emma)
        ∷ commands cmd_buy calm bob (plain_cmd emma)
        ∷ [])
      town)
take_steps-IsRegistered_example =
    take_steps-IsRegistered town
      (commands cmd_add calm bob (friend_cmd ann)
        ∷ arrives calm (msg_sent ann bob emma)
        ∷ commands cmd_buy calm bob (plain_cmd emma)
        ∷ [])
      (record { counted = refl; found = (refl, (refl, tt)) })

input_buy-IsMute_example :
    Holds Mute (input_rm calm bob town (plain_cmd emma))
    × Holds Mute (input_buy calm bob town (plain_cmd emma))
    × Holds (Idle town) (input_search calm town (plain_cmd emma))
    × Holds (Idle town) (input_whatsup calm bob town (plain_cmd emma))
    × Holds (Idle town) (input_wow calm town (plain_cmd emma))
input_buy-IsMute_example = input_buy-IsMute calm bob town (plain_cmd emma)

input_add-IsCircle_example :
    (u : Library) × (input_add calm bob town (friend_cmd ann)
      ≡ some (some (printed (ann ++ bytes " is now your friend.")), u))
    × ((u.users 2).friends ≡ with_friend town.users [] 1)
    × IsCircle u 2
input_add-IsCircle_example =
    (input_add-IsCircle calm town bob ann 2 1 bob-IsSession
        (record { counted = refl; distinct = tt }) (omega arith) refl refl).0
      refl

-- Bob with the friend Ann
abbrev friendly_town : Library
friendly_town = set_user town 2 (record (new_user 20 bob []) { friends = 1 ∷ []; num_frds = 1 })

input_rm-rm_friend_example :
    (u : Library) × (input_rm calm bob friendly_town (friend_cmd ann) ≡ some (error_reply true, u))
    × ((u.users 2).friends ≡ remaining [] [])
    × ((u.users 2).num_frds ≡ 0)
input_rm-rm_friend_example =
    (input_rm-rm_friend calm friendly_town bob ann 2
        (record { host_locks = refl; target_locks = refl; fuel = omega arith; known = refl }) refl
        (omega arith)).1
      [] 1 [] refl tt refl

command_msg-IsTallied_example :
    (t : Text) × (u : Library) × (command_msg calm bob town (friend_cmd ann) ≡ some (some t, u))
    × IsTallied (u.users 2).msg_box
    × ((u.users 2).msg_box.num_unread + 1 ≡ 1)
    × (get_msg_node (u.users 2).msg_box.msgs ann ≡ some (record from_ann { num_unread = 0 }))
command_msg-IsTallied_example =
    (command_msg-IsTallied calm town bob ann 2 from_ann bob-IsSession
        (record { unread = refl; small = omega arith }) refl).0
      refl (omega arith)

-- the whole sequence is answered
steps_answered :
    (u : Library) × (take_steps
        (commands cmd_add calm bob (friend_cmd ann)
          ∷ arrives calm (msg_sent ann bob emma)
          ∷ commands cmd_buy calm bob (plain_cmd emma)
          ∷ [])
        town
      ≡ some u)
unfolding input_add input_msg input_buy
steps_answered = (_, refl)
