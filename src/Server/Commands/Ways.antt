-- ===== src/Server/Commands/Ways.antt =====
-- eLibrary/src/client/eLibrary_client_parse.c: a property of answers that `whatsup`, `wow` and `buy`
-- have in whichever way they end.
use morning_projects.Common.{
  ℕ, Bool, true, false, Option, none, some, List, [], ◌∷◌, if◌then◌else◌, ◌>>=◌, refl, ◌≡◌,
}
use morning_projects.Server.{Ptr, Status, ok, fail, Library}
use morning_projects.Server.Bytes.{Text}
use morning_projects.Server.Activities.{
  ActyFilter, all, get_user_acty, get_book_hty, by_wow, by_buy,
}
use morning_projects.Server.Users.{get_frd_info}
use morning_projects.Server.Books.{buy_book}
use morning_projects.Server.Lookup.{
  BooksFound, by_book_name, sort_undef, get_book_info, head_book, merge_acty,
}
use morning_projects.Server.Brief.{
  BriefEvent, hlp_wow, hlp_buy, hlp_whatsup, buy_book_evt, printed, system_error, brief_acty,
  brief_global,
}
use morning_projects.Server.Commands.{
  CmdLine, CommandEnv, Letter, letter_f, letter_d, letter_g, letter_b, letter_h, letter_s,
  other_letter, letter, param_0, is_ok, find_host, find_target,
}
use morning_projects.Server.Commands.Queries.{
  Acties, no_acties, written, counted, conclude_query, invalid_query, failed_query, query_help,
  whatsup_friend, whatsup_option, whatsup_hosted, input_whatsup, tagged, tags_by, history_of,
  tags_option, global_tags, wow_named, wow_with, input_wow, buy_found, buy_hosted, buy_with,
  input_buy,
}
use morning_projects.Server.Commands.Yields.{Holds, Holds-read, Holds-test}

-- The commands end in `conclude_query`, with a reply of their own only where the status is OK, or
-- are not valid.
module _ (env : CommandEnv) (l : Library) (P : Option Text × Library → Type 0)
    (ends : (parsed : Bool) (s : Status) (msg : Option Text) (acts : Acties)
      → (parsed ≡ true → is_ok s ≡ true)
      → Holds P (conclude_query env parsed s msg acts l))
    (invalid : Holds P (invalid_query env l)) where
  not_parsed : (s : Status) (acts : Acties) → Holds P (conclude_query env false s none acts l)
  not_parsed s acts = ends false s none acts (λ e. cc)

  failed : Holds P (failed_query env l)
  failed = not_parsed fail no_acties

  help : (event : BriefEvent) → Holds P (query_help env event l)
  help event =
      ends true ok (if env.brief_memory then some (printed system_error) else none) no_acties
        (λ e. refl)

  whatsup_friend-Holds : (found : Option Ptr) → Holds P (whatsup_friend env l found)
  whatsup_friend-Holds none = failed
  whatsup_friend-Holds (some p) =
      let (s, found) = get_user_acty env.copy_memory (l.users p) all in not_parsed s (written found)

  whatsup_option-Holds :
      (c : Letter) (ts : List Text) (host : Ptr) → Holds P (whatsup_option env c ts host l)
  whatsup_option-Holds letter_f [] host = invalid
  whatsup_option-Holds letter_f (name ∷ ts) host =
      whatsup_friend-Holds (get_frd_info l.users (l.users host).friends name)
  whatsup_option-Holds letter_h ts host = help hlp_whatsup
  whatsup_option-Holds letter_b ts host = invalid
  whatsup_option-Holds letter_d ts host = invalid
  whatsup_option-Holds letter_g ts host = invalid
  whatsup_option-Holds letter_s ts host = invalid
  whatsup_option-Holds other_letter ts host = invalid

  whatsup_hosted-Holds :
      (cs : List ℕ) (ts : List Text) (found : Option Ptr)
      → Holds P (whatsup_hosted env l cs ts found)
  whatsup_hosted-Holds cs ts none = failed
  whatsup_hosted-Holds [] ts (some host) =
      Holds-read P (merge_acty env.copy_memory l (l.users host)) _ (λ s. not_parsed s no_acties)
  whatsup_hosted-Holds (c ∷ cs) ts (some host) = whatsup_option-Holds (letter c) ts host

  pub input_whatsup-Holds :
      (user_name : Text) (cmd : CmdLine) → Holds P (input_whatsup env user_name l cmd)
  unfolding input_whatsup
  input_whatsup-Holds user_name cmd =
      Holds-read P (find_host env user_name l) _ (whatsup_hosted-Holds cmd.option cmd.params)

  tags_by-Holds : (filter : ActyFilter) (found : Option Ptr) → Holds P (tags_by env filter l found)
  tags_by-Holds filter none = failed
  tags_by-Holds filter (some p) =
      let (s, found) = get_user_acty env.copy_memory (l.users p) filter in
      let (n, acts) = written found in
      Holds-test P (is_ok s) _ _
        (λ e.
          Holds-read P (brief_acty env.brief_memory n acts) _
            (λ msg. ends true s msg (n, acts) (λ e'. e)))
        (λ e. not_parsed s (n, acts))

  history_of-Holds :
      (filter : ActyFilter) (found : BooksFound) → Holds P (history_of env filter l found)
  history_of-Holds filter found =
      Holds-test P (is_ok found.status) _ _
        (λ e. Holds-read P (head_book found.books) _ (λ b.
          let (s, n) = get_book_hty env.hty_memory (l.books b) filter in
          let (count, acts) = counted n in
          Holds-test P (is_ok s) _ _
            (λ e.
              Holds-read P (brief_acty env.brief_memory count acts) _
                (λ msg. ends true s msg (count, acts) (λ e'. e)))
            (λ e. not_parsed s (count, acts))))
        (λ e. not_parsed found.status no_acties)

  tags_option-Holds :
      (filter : ActyFilter) (event : BriefEvent) (c : Letter) (ts : List Text)
      → Holds P (tags_option env filter event c ts l)
  tags_option-Holds filter event letter_f ts =
      Holds-read P (param_0 ts) _
        (λ name. Holds-read P (find_target env name l) _ (tags_by-Holds filter))
  tags_option-Holds filter event letter_b ts = Holds-read P (param_0 ts) _ (λ name.
      Holds-read P (get_book_info env.node_memory l (by_book_name name) sort_undef) _
        (history_of-Holds filter))
  tags_option-Holds filter event letter_h ts = help event
  tags_option-Holds filter event letter_d ts = invalid
  tags_option-Holds filter event letter_g ts = invalid
  tags_option-Holds filter event letter_s ts = invalid
  tags_option-Holds filter event other_letter ts = invalid

  global_tags-Holds :
      (parsed : Bool) (filter : ActyFilter) → Holds P (global_tags env parsed filter l)
  global_tags-Holds parsed filter =
      Holds-read P (brief_global env.brief_memory l filter) _
        (λ msg. ends parsed ok msg no_acties (λ e. refl))

  wow_named-Holds : (found : Option Ptr) → Holds P (wow_named env l found)
  wow_named-Holds none = tt
  wow_named-Holds (some p) = tt

  wow_with-Holds : (cs : List ℕ) (ts : List Text) → Holds P (wow_with env l cs ts)
  wow_with-Holds [] [] = global_tags-Holds false by_wow
  wow_with-Holds [] (name ∷ ts) = Holds-read P (find_target env name l) _ wow_named-Holds
  wow_with-Holds (c ∷ cs) ts = tags_option-Holds by_wow hlp_wow (letter c) ts

  pub input_wow-Holds : (cmd : CmdLine) → Holds P (input_wow env l cmd)
  unfolding input_wow
  input_wow-Holds cmd = wow_with-Holds cmd.option cmd.params

  -- what is bought and said of it
  module _
      (buys : (host b : Ptr) (name : Text)
        → Holds P (
            buy_book env.tag_memory env.date env.now l host b >>= λ r.
            tagged env buy_book_evt name r)) where
    buy_found-Holds :
        (name : Text) (host : Ptr) (found : BooksFound) → Holds P (buy_found env name host l found)
    buy_found-Holds name host found =
        Holds-test P (is_ok found.status) _ _
          (λ e. Holds-read P (head_book found.books) _ (λ b. buys host b name))
          (λ e. not_parsed found.status no_acties)

    buy_hosted-Holds : (name : Text) (found : Option Ptr) → Holds P (buy_hosted env name l found)
    buy_hosted-Holds name none = tt
    buy_hosted-Holds name (some host) =
        Holds-read P (get_book_info env.node_memory l (by_book_name name) sort_undef) _
          (buy_found-Holds name host)

    buy_with-Holds :
        (user_name : Text) (cs : List ℕ) (ts : List Text) → Holds P (buy_with env user_name l cs ts)
    buy_with-Holds user_name [] [] = global_tags-Holds true by_buy
    buy_with-Holds user_name [] (name ∷ ts) =
        Holds-read P (find_host env user_name l) _ (buy_hosted-Holds name)
    buy_with-Holds user_name (c ∷ cs) ts = tags_option-Holds by_buy hlp_buy (letter c) ts

    pub input_buy-Holds :
        (user_name : Text) (cmd : CmdLine) → Holds P (input_buy env user_name l cmd)
    unfolding input_buy
    input_buy-Holds user_name cmd = buy_with-Holds user_name cmd.option cmd.params
