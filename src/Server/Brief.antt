-- ===== src/Server/Brief.antt =====
-- eLibrary/src/client/eLibrary_client_output.c: the texts that answer a command. `print` is what `%d`
-- makes of a number, and `lite` what `myAscTimeLite` of common/src/common.c makes of a time. An
-- answer `none` inside the outer option is NULL.
pub mod Usage
pub mod Boxes
use Prim.Native.String.{String}
use morning_projects.Common.{
  ℕ, ◌+◌, ◌-◌, ◌<◌, Bool, true, false, not, Option, none, some, List, [], ◌∷◌, ◌++◌, ltb, ◌==◌,
  if◌then◌else◌, ◌>>=◌, length, zero, suc,
}
use morning_projects.Server.{
  Ptr, User, Book, Acty, Msg, Contact, MsgBox, Library, Direction, receipt_in, receipt_out, undef,
}
use morning_projects.Server.Bytes.{Text, take, contains_text}
use morning_projects.Server.Activities.{ActyFilter, by_wow, by_buy, wow_text, buy_text}
use Usage.{
  bytes, view_usage, add_usage, rm_usage, search_usage, whatsup_usage, wow_usage, buy_usage,
  msg_usage,
}

-- `enum briefEVT`
pub data BriefEvent : Type 0 where
  brief_undef evt_fail hlp_view hlp_add hlp_rm hlp_search hlp_whatsup hlp_wow hlp_buy hlp_msg :
      BriefEvent
  view_user view_frd_all view_book add_friend_evt add_desp add_group add_book_evt : BriefEvent
  rm_friend_evt rm_book_evt wow_book_evt buy_book_evt err_cmd_invalid err_general : BriefEvent

-- what the pointer that `briefEx` takes points to
pub data Subject : Type 0 where
  no_subject : Subject
  text_subject : Text → Subject
  user_subject : User → Subject
  book_subject : Book → Subject

-- MAX_BRIEF_LENGTH, MAX_ACTY_LENGTH
abbrev pub max_brief_length : ℕ
max_brief_length = 1000

-- what `snprintf` with this bound leaves
abbrev pub printed : Text → Text
printed t = take (max_brief_length - 1) t

-- a reply, for which there is memory or not
abbrev pub reply_if : Bool → Text → Option (Option Text)
reply_if memory t = some (if memory then some (printed t) else none)

abbrev pub system_error : Text
system_error = bytes "System error.\n"

abbrev pub brief_text : BriefEvent → Text → Option Text
brief_text add_friend_evt t = some (t ++ bytes " is now your friend.")
brief_text add_desp t = some (bytes "Description added to book " ++ (t ++ bytes "."))
brief_text add_group t = some (bytes "Group set for book " ++ (t ++ bytes "."))
brief_text add_book_evt t = some (bytes "Book " ++ (t ++ bytes " is now on your shelf."))
brief_text rm_friend_evt t = some (t ++ bytes " removed from your friends.")
brief_text rm_book_evt t = some (t ++ bytes " removed from your shelf.")
brief_text wow_book_evt t = some (bytes "WOW tag added to book " ++ (t ++ bytes "."))
brief_text buy_book_evt t = some (bytes "BUY tag added to book " ++ (t ++ bytes "."))
brief_text _ t = none

module _ (print : ℕ → Text) where
  abbrev pub brief_user : User → Text
  brief_user u =
      bytes "User: "
      ++ (u.username
          ++ (bytes "; email: "
              ++ (u.email
                  ++ (bytes "\nThere are "
                      ++ (print u.num_books
                          ++ (bytes " books on his book shelf.\nHe has "
                              ++ (print u.num_frds
                                  ++ (bytes " friends.\nThere are "
                                      ++ (print u.msg_box.num_unread
                                          ++ bytes " msg unread in the Inbox.")))))))))

  abbrev pub brief_book : Book → Text
  brief_book b =
      bytes "Book: "
      ++ (b.name
          ++ (bytes "\nGroup: "
              ++ (print b.group
                  ++ (bytes "\n "
                      ++ (print b.count_collected
                          ++ (bytes " persons collected this book\n"
                              ++ (print b.num_wow
                                  ++ (bytes " persons WOWed this book\n"
                                      ++ (print b.num_buy
                                          ++ (bytes " persons BUYed this book\nDescription: "
                                              ++ b.desp))))))))))

  -- The header of the list of friends. The loop behind it runs while there is no friend, and prints
  -- into memory that it was not given.
  abbrev pub brief_friends : User → List Ptr → Option Text
  brief_friends u [] = none
  brief_friends u (p ∷ ps) =
      some (u.username ++ (bytes " has " ++ (print u.num_frds ++ bytes " friends:\n")))

  -- the text of the switch; a pointer to something else than the event asks for is a fault, and so
  -- is an event that writes no text
  abbrev pub event_text : BriefEvent → Subject → Option Text
  event_text hlp_view s = some view_usage
  event_text hlp_add s = some add_usage
  event_text hlp_rm s = some rm_usage
  event_text hlp_search s = some search_usage
  event_text hlp_whatsup s = some whatsup_usage
  event_text hlp_wow s = some wow_usage
  event_text hlp_buy s = some buy_usage
  event_text hlp_msg s = some msg_usage
  event_text err_cmd_invalid s = some (bytes "Invalid command. Add -h for usetage.\n")
  event_text err_general s = some system_error
  event_text view_user (user_subject u) = some (brief_user u)
  event_text view_frd_all (user_subject u) = brief_friends u u.friends
  event_text view_book (book_subject b) = some (brief_book b)
  event_text event (text_subject t) = brief_text event t
  event_text event s = none

  -- `briefEx`; NULL is answered with the system error, whatever the event
  abbrev pub brief_ex : Bool → BriefEvent → Subject → Option (Option Text)
  brief_ex memory event no_subject = reply_if memory system_error
  brief_ex false event s = some none
  brief_ex true event s = event_text event s >>= λ t. reply_if true t

  -- the loop of `briefBooks`: `strncat` behind what is written, up to the end of the buffer
  abbrev pub book_lines : List (Option Book) → Text → Option Text
  book_lines [] t = some t
  book_lines (none ∷ bs) t = none
  book_lines (some b ∷ bs) t =
      let line = take 69 (
        b.name
        ++ (bytes " ["
            ++ (print b.group
                ++ (bytes "] "
                    ++ (print b.num_wow
                        ++ (bytes " WOWs " ++ (print b.num_buy ++ bytes " BUYs.\n"))))))) in
      let rest = book_lines bs (t ++ line) in
      if ltb (length (t ++ line)) max_brief_length then rest else none

  -- `briefBooks`, of a list of nodes with the books they point to
  abbrev pub brief_books : Bool → ℕ → List (Option Book) → Option (Option Text)
  brief_books false num_books books = some none
  brief_books true num_books [] = reply_if true (bytes "There are no books on the shelf yet!\n")
  brief_books true num_books (b ∷ bs) =
      let lines =
        book_lines (b ∷ bs)
          (printed (bytes "There are " ++ (print num_books ++ bytes " books on the shelf."))) in
      if num_books == 0
      then reply_if true (bytes "There are no books on the shelf yet!\n")
      else lines >>= λ t. some (some t)

abbrev pub no_activities : Text
no_activities = bytes "There are no activities yet!\n"

-- `briefActy`: with activities to show, it asks for the length of a text that was never written
abbrev pub brief_acty : Bool → ℕ → List Acty → Option (Option Text)
brief_acty false num_acty acts = some none
brief_acty true num_acty [] = reply_if true no_activities
brief_acty true num_acty (a ∷ acts) = if num_acty == 0 then reply_if true no_activities else none

-- whether the slot is passed over
abbrev pub passed_over : ActyFilter → Text → Bool
passed_over by_wow slot = not (contains_text slot wow_text)
passed_over by_buy slot = not (contains_text slot buy_text)
passed_over _ slot = false

-- `briefGlabalBookHty`, whose loop runs while the index is that of the tail: through the one slot that
-- is written
abbrev pub brief_global : Bool → Library → ActyFilter → Option (Option Text)
brief_global false l filter = none
brief_global true l filter = some (some (if passed_over filter l.recent then [] else l.recent))
