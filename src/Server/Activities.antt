-- ===== src/Server/Activities.antt =====
-- eLibrary/src/server/eLibrary_server_handler.c: the histories of users and books, `addUserActy`,
-- `getUserActy` and `getBookHty`. `date` is what `myAscTimeLite` of
-- common/src/common.c makes of the time.
use morning_projects.Common.{
  ℕ, zero, suc, ◌%◌, ◌^◌, Bool, Option, none, some, List, [], ◌∷◌, ◌++◌, ◌==◌, if◌then◌else◌, ◌>>=◌,
  length, ◌-◌,
}
use morning_projects.Server.{
  Ptr, Status, ok, fail, invalid_param, Acty, User, Book, Library, set_user, count_up,
}
use morning_projects.Server.Bytes.{Text, take, contains_text}

-- `ACTY_FILTER_TAG`; `other` is any value that the switch of `addUserActy` does not name
pub data ActyFilter : Type 0 where
  user_create adding_book adding_frd deleting_book by_wow by_buy all other : ActyFilter

-- " joined eLibrary!"
abbrev pub joined_text : Text
joined_text =
    32 ∷ 106 ∷ 111 ∷ 105 ∷ 110 ∷ 101 ∷ 100 ∷ 32 ∷ 101 ∷ 76 ∷ 105 ∷ 98 ∷ 114 ∷ 97 ∷ 114 ∷ 121 ∷ 33
    ∷ []

-- " added \""
abbrev pub added_text : Text
added_text = 32 ∷ 97 ∷ 100 ∷ 100 ∷ 101 ∷ 100 ∷ 32 ∷ 34 ∷ []

-- "\"!"
abbrev pub quoted_end_text : Text
quoted_end_text = 34 ∷ 33 ∷ []

-- " and "
abbrev pub and_text : Text
and_text = 32 ∷ 97 ∷ 110 ∷ 100 ∷ 32 ∷ []

-- " are friends now!"
abbrev pub friends_now_text : Text
friends_now_text =
    32 ∷ 97 ∷ 114 ∷ 101 ∷ 32 ∷ 102 ∷ 114 ∷ 105 ∷ 101 ∷ 110 ∷ 100 ∷ 115 ∷ 32 ∷ 110 ∷ 111 ∷ 119 ∷ 33
    ∷ []

-- " deleted \""
abbrev pub deleted_text : Text
deleted_text = 32 ∷ 100 ∷ 101 ∷ 108 ∷ 101 ∷ 116 ∷ 101 ∷ 100 ∷ 32 ∷ 34 ∷ []

-- "\"."
abbrev pub quoted_stop_text : Text
quoted_stop_text = 34 ∷ 46 ∷ []

-- " added a WOW to \""
abbrev pub wowed_text : Text
wowed_text =
    32 ∷ 97 ∷ 100 ∷ 100 ∷ 101 ∷ 100 ∷ 32 ∷ 97 ∷ 32 ∷ 87 ∷ 79 ∷ 87 ∷ 32 ∷ 116 ∷ 111 ∷ 32 ∷ 34 ∷ []

-- " added a BUY to \""
abbrev pub bought_text : Text
bought_text =
    32 ∷ 97 ∷ 100 ∷ 100 ∷ 101 ∷ 100 ∷ 32 ∷ 97 ∷ 32 ∷ 66 ∷ 85 ∷ 89 ∷ 32 ∷ 116 ∷ 111 ∷ 32 ∷ 34 ∷ []

-- " "
abbrev pub space_text : Text
space_text = 32 ∷ []

-- "WOW"
abbrev pub wow_text : Text
wow_text = 87 ∷ 79 ∷ 87 ∷ []

-- "BUY"
abbrev pub buy_text : Text
buy_text = 66 ∷ 85 ∷ 89 ∷ []

-- "\" got a "
abbrev pub got_a_text : Text
got_a_text = 34 ∷ 32 ∷ 103 ∷ 111 ∷ 116 ∷ 32 ∷ 97 ∷ 32 ∷ []

-- " by "
abbrev pub by_text : Text
by_text = 32 ∷ 98 ∷ 121 ∷ 32 ∷ []

-- " \""
abbrev pub quote_text : Text
quote_text = 32 ∷ 34 ∷ []

-- "!"
abbrev pub bang_text : Text
bang_text = 33 ∷ []

-- MAX_ACTY_LENGTH, with the terminator
abbrev pub max_acty_length : ℕ
max_acty_length = 70

-- the text that `snprintf` writes into `buf`; of another filter `buf` is not written
abbrev pub acty_text : Text → Text → ActyFilter → Text → Option Text
acty_text date user user_create name = some (date ++ (space_text ++ (user ++ joined_text)))
acty_text date user adding_book name =
    some (date ++ (space_text ++ (user ++ (added_text ++ (name ++ quoted_end_text)))))
acty_text date user adding_frd name =
    some (date ++ (space_text ++ (user ++ (and_text ++ (name ++ friends_now_text)))))
acty_text date user deleting_book name =
    some (date ++ (space_text ++ (user ++ (deleted_text ++ (name ++ quoted_stop_text)))))
acty_text date user by_wow name =
    some (date ++ (space_text ++ (user ++ (wowed_text ++ (name ++ quoted_end_text)))))
acty_text date user by_buy name =
    some (date ++ (space_text ++ (user ++ (bought_text ++ (name ++ quoted_end_text)))))
acty_text date user all name = none
acty_text date user other name = none

-- `strncpy(slot, buf, strlen(buf))`, which leaves what stood behind
abbrev pub overlay : Text → Text → Text
overlay [] old = old
overlay (x ∷ xs) [] = x ∷ overlay xs []
overlay (x ∷ xs) (y ∷ ys) = x ∷ overlay xs ys

-- the node at the end of the host's history, and the text in the slot of the whole library, whose
-- offset nothing moves
abbrev pub record_acty : Library → Ptr → Text → ℕ → Library
record_acty l host text timestamp =
    let u = l.users host in
    let entry : Acty = record { acty = text; timestamp = timestamp } in
    record (set_user l host
      (record u { activity = u.activity ++ (entry ∷ []); num_acty = count_up u.num_acty })) {
        recent = overlay text l.recent;
      }

-- `addUserActy`
unfoldable pub add_user_acty :
    Bool → Text → ℕ → Library → Ptr → ActyFilter → Text → Option (Status × Library)
add_user_acty allocated date timestamp l host filter name =
    acty_text date (l.users host).username filter name >>= λ text.
    (if allocated
      then some (ok, record_acty l host (take (max_acty_length - 1) text) timestamp)
      else some (fail, l))

-- the copies that the loop of `getUserActy` makes, and the result; `memory` says of each copy in
-- turn whether it is allocated, and the loop ends where one is not
abbrev pub copy_acties : List Bool → List Acty → Text → Status × List Acty
copy_acties memory [] word = (ok, [])
copy_acties [] (a ∷ acts) word =
    if contains_text a.acty word then (fail, []) else copy_acties [] acts word
copy_acties (allocated ∷ memory) (a ∷ acts) word =
    let (s, copies) = copy_acties memory acts word in
    let (s', rest) = copy_acties (allocated ∷ memory) acts word in
    if contains_text a.acty word
    then (if allocated then (s, a ∷ copies) else (fail, []))
    else (s', rest)

-- `getUserActy` with `*activities` NULL before: its status, `*numActy` and `*activities` behind it,
-- `none` where it does not write them
unfoldable pub get_user_acty : List Bool → User → ActyFilter → Status × Option (ℕ × List Acty)
get_user_acty memory host all = (ok, some (host.num_acty, host.activity))
get_user_acty memory host by_wow =
    let (s, copies) = copy_acties memory host.activity wow_text in
    (s, some (length copies % 2 ^ 32, copies))
get_user_acty memory host by_buy =
    let (s, copies) = copy_acties memory host.activity buy_text in
    (s, some (length copies % 2 ^ 32, copies))
get_user_acty memory host _ = (ok, none)

-- the loop of `getBookHty`: it counts the records, as long as `memory` more nodes are allocated
abbrev pub count_records : ℕ → List Text → ℕ → ℕ
count_records memory [] counter = counter
count_records zero (n ∷ names) counter = counter
count_records (suc memory) (n ∷ names) counter = count_records memory names (count_up counter)

-- `getBookHty`: its status and `*counter`; `*activities` is always NULL, and the nodes are freed or
-- leaked. A failed allocation shows only in the count.
unfoldable pub get_book_hty : ℕ → Book → ActyFilter → Status × Option ℕ
get_book_hty memory book by_wow =
    let counter = count_records memory book.who_wowed 0 in
    if counter == book.num_wow then (ok, some counter) else (fail, some 0)
get_book_hty memory book by_buy =
    let counter = count_records memory book.who_buyed 0 in
    if counter == book.num_buy then (ok, some counter) else (fail, some 0)
get_book_hty memory book _ = (invalid_param, none)
