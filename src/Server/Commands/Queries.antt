-- ===== src/Server/Commands/Queries.antt =====
-- eLibrary/src/client/eLibrary_client_parse.c: `eLibrary_SVR_input_Whatsup`, `eLibrary_SVR_input_Wow`
-- and `eLibrary_SVR_input_Buy`.
use morning_projects.Common.{
  ℕ, Bool, true, false, not, Option, none, some, List, [], ◌∷◌, if◌then◌else◌, ◌>>=◌,
}
use morning_projects.Server.{Ptr, Status, ok, fail, Acty, Library}
use morning_projects.Server.Bytes.{Text}
use morning_projects.Server.Activities.{
  ActyFilter, by_wow, by_buy, all, get_user_acty, get_book_hty,
}
use morning_projects.Server.Users.{get_user_info, get_frd_info}
use morning_projects.Server.Books.{buy_book}
use morning_projects.Server.Lookup.{
  BooksFound, by_book_name, sort_undef, get_book_info, head_book, merge_acty,
}
use morning_projects.Server.Brief.{
  BriefEvent, hlp_whatsup, hlp_wow, hlp_buy, buy_book_evt, err_cmd_invalid, err_general, no_subject,
  text_subject, brief_ex, brief_acty, brief_global,
}
use morning_projects.Server.Commands.{
  CmdLine, CommandEnv, Answer, Letter, letter_f, letter_b, letter_h, letter, param_0, is_ok,
  replied, find_host, find_target,
}

-- `numActy` and `activities`, and what is written to them
abbrev pub Acties : Type 0
Acties = ℕ × List Acty

abbrev pub no_acties : Acties
no_acties = (0, [])

abbrev pub written : Option Acties → Acties
written none = no_acties
written (some found) = found

abbrev pub counted : Option ℕ → Acties
counted none = no_acties
counted (some n) = (n, [])

-- The end of the three commands: the general error for status OK, and the activities for another one
-- unless the reply is there already.
abbrev pub conclude_query : CommandEnv → Bool → Status → Option Text → Acties → Library → Answer
conclude_query env parsed result msg (n, acts) l =
    replied
      (if is_ok result
        then brief_ex env.print env.reply_memory err_general no_subject
        else if not parsed
        then brief_acty env.reply_memory n acts
        else some msg)
      l

abbrev pub invalid_query : CommandEnv → Library → Answer
invalid_query env l = replied (brief_ex env.print env.reply_memory err_cmd_invalid no_subject) l

abbrev pub failed_query : CommandEnv → Library → Answer
failed_query env l = conclude_query env false fail none no_acties l

abbrev pub query_help : CommandEnv → BriefEvent → Library → Answer
query_help env event l = brief_ex env.print env.brief_memory event no_subject >>= λ msg.
    conclude_query env true ok msg no_acties l

-- `whatsup -f`: the friend that was found
abbrev pub whatsup_friend : CommandEnv → Library → Option Ptr → Answer
whatsup_friend env l none = failed_query env l
whatsup_friend env l (some friend) =
    let (s, found) = get_user_acty env.copy_memory (l.users friend) all in
    conclude_query env false s none (written found) l

abbrev pub whatsup_option : CommandEnv → Letter → List Text → Ptr → Library → Answer
whatsup_option env letter_f (name ∷ ts) host l =
    whatsup_friend env l (get_frd_info l.users (l.users host).friends name)
whatsup_option env letter_h ts host l = query_help env hlp_whatsup l
whatsup_option env _ ts host l = invalid_query env l

abbrev pub whatsup_hosted : CommandEnv → Library → List ℕ → List Text → Option Ptr → Answer
whatsup_hosted env l cs ts none = failed_query env l
whatsup_hosted env l [] ts (some host) =
    merge_acty env.copy_memory l (l.users host) >>= λ s. conclude_query env false s none no_acties l
whatsup_hosted env l (c ∷ cs) ts (some host) = whatsup_option env (letter c) ts host l

-- `eLibrary_SVR_input_Whatsup`
unfoldable pub input_whatsup : CommandEnv → Text → Library → CmdLine → Answer
unfolding get_user_info get_user_acty
input_whatsup env user_name l cmd =
    find_host env user_name l >>= λ found. whatsup_hosted env l cmd.option cmd.params found

-- a tag that was given to a book, or not
abbrev pub tagged : CommandEnv → BriefEvent → Text → Status × Library → Answer
tagged env event name (s, l) =
    if is_ok s
    then (brief_ex env.print env.brief_memory event (text_subject name) >>= λ msg.
        conclude_query env true s msg no_acties l)
    else conclude_query env false s none no_acties l

-- `-f`: the friend's tags
abbrev pub tags_by : CommandEnv → ActyFilter → Library → Option Ptr → Answer
tags_by env filter l none = failed_query env l
tags_by env filter l (some p) =
    let (s, found) = get_user_acty env.copy_memory (l.users p) filter in
    let (n, acts) = written found in
    if is_ok s
    then (brief_acty env.brief_memory n acts >>= λ msg. conclude_query env true s msg (n, acts) l)
    else conclude_query env false s none (n, acts) l

-- `-b`: the tags of the book that was found
abbrev pub history_of : CommandEnv → ActyFilter → Library → BooksFound → Answer
history_of env filter l found =
    if is_ok found.status
    then (head_book found.books >>= λ b.
        let (s, n) = get_book_hty env.hty_memory (l.books b) filter in
        let (count, acts) = counted n in
        if is_ok s
        then (brief_acty env.brief_memory count acts >>= λ msg.
            conclude_query env true s msg (count, acts) l)
        else conclude_query env false s none (count, acts) l)
    else conclude_query env false found.status none no_acties l

abbrev pub tags_option :
    CommandEnv → ActyFilter → BriefEvent → Letter → List Text → Library → Answer
tags_option env filter help letter_f ts l =
    param_0 ts >>= λ name. find_target env name l >>= λ found. tags_by env filter l found
tags_option env filter help letter_b ts l = param_0 ts >>= λ name.
    get_book_info env.node_memory l (by_book_name name) sort_undef >>= λ found.
    history_of env filter l found
tags_option env filter help letter_h ts l = query_help env help l
tags_option env filter help _ ts l = invalid_query env l

-- `wow` and `buy` alone
abbrev pub global_tags : CommandEnv → Bool → ActyFilter → Library → Answer
global_tags env parsed filter l =
    brief_global env.brief_memory l filter >>= λ msg. conclude_query env parsed ok msg no_acties l

-- `wow bookname`: a user of the book's name is looked for. Behind one, the filter was never written;
-- without one, the diagnostic reads the name of the user through NULL.
abbrev pub wow_named : CommandEnv → Library → Option Ptr → Answer
wow_named env l none = none
wow_named env l (some p) = none

abbrev pub wow_with : CommandEnv → Library → List ℕ → List Text → Answer
wow_with env l [] [] = global_tags env false by_wow l
wow_with env l [] (name ∷ ts) = find_target env name l >>= λ found. wow_named env l found
wow_with env l (c ∷ cs) ts = tags_option env by_wow hlp_wow (letter c) ts l

-- `eLibrary_SVR_input_Wow`
unfoldable pub input_wow : CommandEnv → Library → CmdLine → Answer
unfolding get_user_info get_user_acty get_book_hty
input_wow env l cmd = wow_with env l cmd.option cmd.params

-- `buy bookname`: the book that was found
abbrev pub buy_found : CommandEnv → Text → Ptr → Library → BooksFound → Answer
buy_found env name host l found =
    if is_ok found.status
    then (head_book found.books >>= λ b.
        buy_book env.tag_memory env.date env.now l host b >>= λ r. tagged env buy_book_evt name r)
    else conclude_query env false found.status none no_acties l

-- without the user, the diagnostic reads the name through NULL
abbrev pub buy_hosted : CommandEnv → Text → Library → Option Ptr → Answer
buy_hosted env name l none = none
buy_hosted env name l (some host) =
    get_book_info env.node_memory l (by_book_name name) sort_undef >>= λ found.
    buy_found env name host l found

abbrev pub buy_with : CommandEnv → Text → Library → List ℕ → List Text → Answer
buy_with env user_name l [] [] = global_tags env true by_buy l
buy_with env user_name l [] (name ∷ ts) =
    find_host env user_name l >>= λ found. buy_hosted env name l found
buy_with env user_name l (c ∷ cs) ts = tags_option env by_buy hlp_buy (letter c) ts l

-- `eLibrary_SVR_input_Buy`
unfoldable pub input_buy : CommandEnv → Text → Library → CmdLine → Answer
unfolding get_user_info get_user_acty get_book_hty buy_book
input_buy env user_name l cmd = buy_with env user_name l cmd.option cmd.params
