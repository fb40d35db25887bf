-- ===== src/Server/Commands.antt =====
-- eLibrary/src/client/eLibrary_client_parse.c: the commands of a session, `eLibrary_SVR_input_Add`,
-- `eLibrary_SVR_input_Rm` and `eLibrary_SVR_input_Search`. The name `userName` of the session's user,
-- which the file does not declare, is an argument. A command leaves its reply, `none` for NULL, and
-- the library.
pub mod Queries
pub mod Inbox
pub mod Yields
pub mod Handlers
pub mod Kept
pub mod Ways
pub mod Mute
pub mod Replies
pub mod Reading
pub mod KeptInbox
pub mod Session
pub mod Tests
use morning_projects.Common.{
  ℕ, Bool, true, false, not, Option, none, some, List, [], ◌∷◌, ◌==◌, if◌then◌else◌, ◌>>=◌, ◌&&◌,
}
use morning_projects.Server.{Ptr, Status, ok, fail, invalid_param, Library}
use morning_projects.Server.Bytes.{Text}
use morning_projects.Server.Messages.{EventRounds}
use morning_projects.Server.Users.{get_user_info}
use morning_projects.Server.Friends.{add_friend, rm_friend}
use morning_projects.Server.Books.{AddBook, add_book, rm_book}
use morning_projects.Server.Lookup.{by_book_name, sort_undef, get_book_info}
use morning_projects.Server.Brief.{
  BriefEvent, brief_undef, hlp_rm, hlp_search, hlp_buy, add_friend_evt, add_desp, add_group,
  add_book_evt, rm_book_evt, err_cmd_invalid, err_general, no_subject, text_subject, brief_ex,
}

-- `cmd_line_tag`: the options and the parameters, as many as `num_options` and `num_params` say
pub record CmdLine : Type 0 where
  pub option : List ℕ
  pub params : List Text

-- What a command meets: the fuel and the locks of `getUserInfo` for the session's user and for a name
-- in the command; whether each `malloc` gives memory (`reply_memory` for a reply that replaces the one
-- of `brief_memory`); what a new book, the message exchange and the clock give; and what
-- `groupConverer`, whose body is empty, leaves.
pub record CommandEnv : Type 0 where
  pub fuel : ℕ
  pub host_locks : Bool
  pub target_locks : Bool
  pub node_memory : Bool
  pub friend_memory : Bool × Bool
  pub tag_memory : Bool × Bool
  pub copy_memory : List Bool
  pub hty_memory : ℕ
  pub msg_memory : Bool × Bool
  pub brief_memory : Bool
  pub reply_memory : Bool
  pub new_book : AddBook
  pub group : Option ℕ
  pub exchange_ready : Bool
  pub exchange : EventRounds
  pub date : Text
  pub now : ℕ
  pub print : ℕ → Text
  pub lite : ℕ → Text

-- the outcome of a command; `none` is a fault or no return
abbrev pub Answer : Type 0
Answer = Option (Option Text × Library)

-- an option as the code tells them apart
pub data Letter : Type 0 where
  letter_f letter_d letter_g letter_b letter_h letter_s other_letter : Letter

abbrev pub letter : ℕ → Letter
letter c =
    if c == 102
    then letter_f
    else if c == 100
    then letter_d
    else if c == 103
    then letter_g
    else if c == 98
    then letter_b
    else if c == 104
    then letter_h
    else if c == 115
    then letter_s
    else other_letter

-- `params[i]`; there is no other parameter to read
abbrev pub param_0 : List Text → Option Text
param_0 [] = none
param_0 (t ∷ ts) = some t

abbrev pub param_1 : List Text → Option Text
param_1 [] = none
param_1 (t ∷ ts) = param_0 ts

abbrev pub is_ok : Status → Bool
is_ok ok = true
is_ok fail = false
is_ok invalid_param = false

-- `getUserInfo(userName, NULL)` and `getUserInfo(parsedCmd->params[0], NULL)`
abbrev pub find_host : CommandEnv → Text → Library → Option (Option Ptr)
find_host env user_name l = get_user_info env.fuel env.host_locks l user_name none

abbrev pub find_target : CommandEnv → Text → Library → Option (Option Ptr)
find_target env name l = get_user_info env.fuel env.target_locks l name none

-- the reply with the library
abbrev pub replied : Option (Option Text) → Library → Answer
replied none l = none
replied (some reply) l = some (reply, l)

-- The end of the commands `Add`, `Rm`, `Search` and `Msg`: another reply where the command is not
-- valid, or failed.
abbrev pub conclude : CommandEnv → Bool → Status → Option Text → Library → Answer
conclude env valid result msg l =
    replied
      (if not (is_ok result)
        then brief_ex env.print env.reply_memory err_general no_subject
        else if not valid
        then brief_ex env.print env.reply_memory err_cmd_invalid no_subject
        else some msg)
      l

-- an invalid command, and one that failed
abbrev pub invalid_cmd : CommandEnv → Library → Answer
invalid_cmd env l = conclude env false ok none l

abbrev pub failed_cmd : CommandEnv → Library → Answer
failed_cmd env l = conclude env true fail none l

-- the reply of the command itself, about what the pointer of `briefEx` points to
abbrev pub say : CommandEnv → BriefEvent → Option Text → Library → Answer
say env event none l =
    brief_ex env.print env.brief_memory event no_subject >>= λ msg. conclude env true ok msg l
say env event (some t) l =
    brief_ex env.print env.brief_memory event (text_subject t) >>= λ msg. conclude env true ok msg l

-- the reply where the status is OK
abbrev pub say_if_ok : CommandEnv → BriefEvent → Option Text → Status × Library → Answer
say_if_ok env event str (s, l) = if is_ok s then say env event str l else conclude env true s none l

-- `add -f`: the friend that was found
abbrev pub add_found : CommandEnv → Ptr → Text → Library → Option Ptr → Answer
add_found env host name l none = failed_cmd env l
add_found env host name l (some friend) =
    add_friend env.friend_memory env.date env.now l host friend >>= λ r.
    say_if_ok env add_friend_evt (some name) r

-- `add -d`, `add -g` and `add -b` behind the switch
abbrev pub add_to_book :
    CommandEnv → BriefEvent → Option Text → Bool → Option ℕ → Ptr → CmdLine → Library → Answer
add_to_book env event str described group host cmd l = param_0 cmd.params >>= λ name.
    add_book env.new_book env.date env.now l host name described group >>= λ r.
    say_if_ok env event str r

-- the switch of `eLibrary_SVR_input_Add`
abbrev pub add_option : CommandEnv → Letter → List Text → Ptr → CmdLine → Library → Answer
add_option env letter_f [] host cmd l = invalid_cmd env l
add_option env letter_f (name ∷ ts) host cmd l =
    find_target env name l >>= λ found. add_found env host name l found
add_option env letter_d (name ∷ desp ∷ ts) host cmd l =
    add_to_book env add_desp (some desp) true none host cmd l
add_option env letter_d _ host cmd l = invalid_cmd env l
add_option env letter_g (name ∷ group ∷ ts) host cmd l =
    add_to_book env add_group (some group) false env.group host cmd l
add_option env letter_g _ host cmd l = invalid_cmd env l
add_option env letter_b _ host cmd l = add_to_book env add_book_evt none false none host cmd l
add_option env letter_h _ host cmd l = say env hlp_buy none l
add_option env letter_s _ host cmd l = invalid_cmd env l
add_option env other_letter _ host cmd l = invalid_cmd env l

abbrev pub add_hosted : CommandEnv → ℕ → CmdLine → Library → Option Ptr → Answer
add_hosted env c cmd l none = failed_cmd env l
add_hosted env c cmd l (some host) = add_option env (letter c) cmd.params host cmd l

abbrev pub add_with : CommandEnv → Text → Library → CmdLine → List ℕ → Answer
add_with env user_name l cmd [] = invalid_cmd env l
add_with env user_name l cmd (c ∷ cs) =
    find_host env user_name l >>= λ found. add_hosted env c cmd l found

-- `eLibrary_SVR_input_Add`
unfoldable pub input_add : CommandEnv → Text → Library → CmdLine → Answer
unfolding get_user_info add_friend add_book
input_add env user_name l cmd = add_with env user_name l cmd cmd.option

-- `rm -b` and `rm -f`; the reply is asked for with NULL
abbrev pub rm_option : CommandEnv → Letter → Text → Ptr → Library → Answer
rm_option env letter_b target host l =
    rm_book l host target >>= λ r. say_if_ok env rm_book_evt none r
rm_option env letter_f target host l = say_if_ok env rm_book_evt none (rm_friend l host target)
rm_option env letter_h target host l = say env hlp_rm none l
rm_option env _ target host l = invalid_cmd env l

abbrev pub rm_hosted : CommandEnv → ℕ → Text → Library → Option Ptr → Answer
rm_hosted env c target l none = failed_cmd env l
rm_hosted env c target l (some host) = rm_option env (letter c) target host l

abbrev pub rm_with : CommandEnv → Text → Library → List ℕ → List Text → Answer
rm_with env user_name l (c ∷ cs) (target ∷ ts) =
    find_host env user_name l >>= λ found. rm_hosted env c target l found
rm_with env user_name l _ _ = invalid_cmd env l

-- `eLibrary_SVR_input_Rm`
unfoldable pub input_rm : CommandEnv → Text → Library → CmdLine → Answer
unfolding get_user_info rm_friend rm_book
input_rm env user_name l cmd = rm_with env user_name l cmd.option cmd.params

-- `search -f`: nothing is said of a user who is found
abbrev pub search_found : CommandEnv → Library → Option Ptr → Answer
search_found env l none = failed_cmd env l
search_found env l (some p) = conclude env true ok none l

abbrev pub search_option : CommandEnv → Letter → Text → Library → Answer
search_option env letter_b target l =
    get_book_info env.node_memory l (by_book_name target) sort_undef >>= λ found.
    conclude env true found.status none l
search_option env letter_f target l = find_target env target l >>= λ found. search_found env l found
search_option env letter_h target l = say env hlp_search none l
search_option env _ target l = invalid_cmd env l

abbrev pub search_with : CommandEnv → Library → List ℕ → List Text → Answer
search_with env l (c ∷ cs) (target ∷ ts) = search_option env (letter c) target l
search_with env l _ _ = invalid_cmd env l

-- `eLibrary_SVR_input_Search`
unfoldable pub input_search : CommandEnv → Library → CmdLine → Answer
unfolding get_user_info
input_search env l cmd = search_with env l cmd.option cmd.params
