-- ===== src/Server/Tests.antt =====
-- Runs of eLibrary/src/server/eLibrary_server_handler.c.
use morning_projects.Common.{
  ℕ, ◌≡◌, refl, Bool, true, false, none, some, [], ◌∷◌, ◌==◌, if◌then◌else◌, arith,
}
use morning_projects.Server.{
  Ptr, ok, fail, receipt_in, receipt_out, set_user, MsgBox, attached, Library,
}
use morning_projects.Server.Bytes.{Text}
use morning_projects.Server.Messages.{
  evt_undef, other_event, SystemEvent, Round, no_rounds, notified, system_msg, notify_exchange,
  new_context, send_receive_msg,
}
use morning_projects.Server.Messages.Delivery.{Delivered}
use morning_projects.Server.Messages.Inbox.{send_receive_msg-Delivered}
use morning_projects.Server.Messages.Exchange.{notify_exchange_lem}
use morning_projects.Server.Users.{get_user_info, new_user, add_user}
use morning_projects.Server.Users.Search.{get_user_info_lem}
use morning_projects.Server.Users.Register.{IsRegistered, all_well, add_user-IsRegistered}
use morning_projects.Server.Friends.{add_friend}
use morning_projects.Server.Friends.Distinct.{IsCircle, with_friend, add_friend-IsCircle}
use morning_projects.Server.Books.{get_book_by_name, new_book, rm_book, wow_book, buy_book}
use morning_projects.Server.Books.Removed.{rm_book_lem}
use morning_projects.Server.Receiver.{open_exchange, input_msg, input_msg-send_receive_msg}
use morning_projects.Server.Maps.{map_insert_element, map_insert_element_lem}

abbrev ann : Text
ann = 97 ∷ 110 ∷ 110 ∷ []

abbrev bob : Text
bob = 98 ∷ 111 ∷ 98 ∷ []

abbrev eve : Text
eve = 101 ∷ 118 ∷ 101 ∷ []

abbrev mail : Text
mail = 64 ∷ []

abbrev emma : Text
emma = 69 ∷ 109 ∷ []

abbrev no_messages : MsgBox
no_messages = record { num_msg = 0; num_unread = 0; msgs = [] }

send_receive_msg-Delivered_example :
    (sent : MsgBox) × (send_receive_msg true
        (true, true)
        no_rounds
        no_messages
        ann
        (some bob)
        (some mail)
        receipt_in
        5
      ≡ some (ok, sent, none))
    × Delivered no_messages sent bob (new_context receipt_in 5 mail)
send_receive_msg-Delivered_example =
    (send_receive_msg-Delivered no_rounds no_messages ann bob mail 5
      (record { counted = tt; total = refl; unread = refl }) (omega arith) (omega arith)).0

-- another event is pending, and nobody handles it
abbrev busy_round : Round
busy_round = record { meanwhile = λ e. e; locks = true; signals = true; unlocks = true }

-- it has been handled, and the signal fails
abbrev free_round : Round
free_round = record { meanwhile = λ e. evt_undef; locks = true; signals = false; unlocks = true }

notify_exchange_lem_example :
    notify_exchange (busy_round ∷ free_round ∷ []) other_event ann bob mail
    ≡ some (notified fail (system_msg ann bob mail) true)
notify_exchange_lem_example =
    (notify_exchange_lem ann bob mail (busy_round ∷ []) free_round [] other_event
        (refl, refl, refl, tt)).1
      refl refl

-- Bob, with his friend Ann; Ann has the book
abbrev two_users : Library
two_users = record {
  users = λ p.
      if p == 1
      then record (new_user 20 ann mail) { books = 7 ∷ []; num_books = 1 }
      else record (new_user 20 bob mail) { friends = 1 ∷ []; num_frds = 1 };
  listed = 1 ∷ 2 ∷ [];
  num_users = 2;
  books = λ p. new_book 1 emma;
  book_list = 7 ∷ [];
  book_tail = attached;
  num_books = 1;
  recent = [];
}

get_user_info_lem_example : get_user_info 1000 true two_users bob (some emma) ≡ none
get_user_info_lem_example =
    ((get_user_info_lem two_users bob (some emma) 5 (omega arith)).1 2 refl).1 refl 1000

two_users-IsRegistered : IsRegistered two_users
two_users-IsRegistered = record { counted = refl; found = (refl, (refl, tt)) }

add_user-IsRegistered_example :
    (u : Library) × (add_user 9 (all_well 3 20) [] 0 two_users (some eve) (some mail)
      ≡ some (ok, u))
    × IsRegistered u
    × (get_user_info 9 true u eve none ≡ some (some 3))
add_user-IsRegistered_example =
    (add_user-IsRegistered two_users eve mail [] 3 20 0 9 two_users-IsRegistered (refl, (refl, tt))
        (omega arith) (omega arith) (omega arith) (omega arith)).0
      refl

bob-IsCircle : IsCircle two_users 2
bob-IsCircle = record { counted = refl; distinct = (refl, tt) }

add_friend-IsCircle_example :
    (u : Library) × (add_friend (true, true) [] 0 two_users 2 4 ≡ some (ok, u))
    × ((u.users 2).friends ≡ with_friend two_users.users (1 ∷ []) 4)
    × IsCircle u 2
add_friend-IsCircle_example = add_friend-IsCircle [] 0 two_users 2 4 bob-IsCircle (omega arith)

rm_book_lem_example :
    (u : Library) × (rm_book two_users 1 emma ≡ some (ok, u))
    × (u.book_list ≡ 7 ∷ [])
    × ((other : Text) → get_book_by_name u none other ≡ get_book_by_name two_users none other)
    × ((memory : Bool × Bool) (date : Text) (now : ℕ) (guest : Ptr)
        → (wow_book memory date now u guest 7 ≡ none) × (buy_book memory date now u guest 7 ≡ none))
rm_book_lem_example = (rm_book_lem two_users 1 emma).1 7 refl refl

map_insert_element_lem_example : map_insert_element (0 ∷ 0 ∷ []) 5 ≡ (fail, 0 ∷ 0 ∷ [])
map_insert_element_lem_example = (map_insert_element_lem (0 ∷ 0 ∷ []) 5).0

input_msg-send_receive_msg_example :
    (sent : MsgBox) × (event : SystemEvent) × (u : Library) × (send_receive_msg true
        (true, true)
        open_exchange
        no_messages
        bob
        (some ann)
        (some mail)
        receipt_out
        5
      ≡ some (ok, sent, some (notified ok event false)))
    × Delivered no_messages sent ann (new_context receipt_out 5 mail)
    × (input_msg 9 true
          (true, true)
          6
          (set_user two_users 2 (record (two_users.users 2) { msg_box = sent }))
          event
        ≡ some u)
    × Delivered no_messages (u.users 1).msg_box bob (new_context receipt_in 6 mail)
input_msg-send_receive_msg_example =
    input_msg-send_receive_msg two_users 2 1 ann mail 5 6 9 refl refl
      (record { counted = tt; total = refl; unread = refl })
      (record { counted = tt; total = refl; unread = refl }) (omega arith) (omega arith)
      (omega arith) (omega arith) (omega arith) (omega arith)
