-- ===== src/Server/Commands/Kept.antt =====
-- eLibrary/src/client/eLibrary_client_parse.c: the commands leave the users and their names.
use morning_projects.Common.{
  ℕ, Bool, true, false, Option, none, some, List, [], ◌∷◌, if◌then◌else◌, ◌>>=◌,
}
use morning_projects.Server.{Ptr, Status, ok, fail, Library}
use morning_projects.Server.Bytes.{Text}
use morning_projects.Server.Friends.{add_friend, rm_friend}
use morning_projects.Server.Books.{add_book, rm_book}
use morning_projects.Server.Lookup.{by_book_name, sort_undef, get_book_info}
use morning_projects.Server.Brief.{
  BriefEvent, hlp_rm, hlp_search, hlp_buy, add_friend_evt, add_desp, add_group, add_book_evt,
  rm_book_evt, text_subject, brief_ex, printed, system_error,
}
use morning_projects.Server.Commands.{
  CmdLine, CommandEnv, Letter, letter_f, letter_d, letter_g, letter_b, letter_h, letter_s,
  other_letter, letter, param_0, is_ok, replied, find_host, find_target, conclude, invalid_cmd,
  failed_cmd, say, say_if_ok, add_found, add_to_book, add_option, add_hosted, input_add, rm_option,
  rm_hosted, input_rm, rm_with, search_found, search_option, search_with, input_search, add_with,
}
use morning_projects.Server.Commands.Yields.{
  Holds, Holds-step, Holds-read, Holds-if, SameUsers, Kept, SameUsers-refl,
}
use morning_projects.Server.Commands.Handlers.{
  add_friend-SameUsers, rm_friend-SameUsers, add_book-SameUsers, rm_book-SameUsers,
}

module _ (env : CommandEnv) (l : Library) where
  pub replied-Kept :
      (reply : Option (Option Text)) (u : Library)
      → SameUsers l u
      → Holds (Kept l) (replied reply u)
  replied-Kept none u same = tt
  replied-Kept (some t) u same = same

  pub conclude-Kept :
      (valid : Bool) (s : Status) (msg : Option Text) (u : Library)
      → SameUsers l u
      → Holds (Kept l) (conclude env valid s msg u)
  conclude-Kept valid s msg u same = replied-Kept _ u same

  pub say-Kept :
      (event : BriefEvent) (str : Option Text) (u : Library)
      → SameUsers l u
      → Holds (Kept l) (say env event str u)
  say-Kept event none u same =
      conclude-Kept true ok (if env.brief_memory then some (printed system_error) else none) u same
  say-Kept event (some t) u same =
      Holds-read (Kept l) (brief_ex env.print env.brief_memory event (text_subject t)) _
        (λ msg. conclude-Kept true ok msg u same)

  say_if_ok-Kept :
      (event : BriefEvent) (str : Option Text) (r : Status × Library)
      → SameUsers l r.1
      → Holds (Kept l) (say_if_ok env event str r)
  say_if_ok-Kept event str (s, u) same =
      Holds-if (Kept l) (is_ok s) _ _ (say-Kept event str u same) (conclude-Kept true s none u same)

  -- a handler, and what is said of it
  said-Kept :
      (event : BriefEvent) (str : Option Text) (m : Option (Status × Library))
      → Holds (Kept l) m
      → Holds (Kept l) (m >>= λ r. say_if_ok env event str r)
  said-Kept event str m kept = Holds-step (Kept l) (Kept l) m _ kept (say_if_ok-Kept event str)

  done : Holds (Kept l) (invalid_cmd env l) × Holds (Kept l) (failed_cmd env l)
  done = (
    conclude-Kept false ok none l (SameUsers-refl l),
    conclude-Kept true fail none l (SameUsers-refl l),
  )

  add_found-Kept :
      (host : Ptr) (name : Text) (found : Option Ptr)
      → Holds (Kept l) (add_found env host name l found)
  add_found-Kept host name none = done.1
  add_found-Kept host name (some friend) =
      said-Kept add_friend_evt (some name)
        (add_friend env.friend_memory env.date env.now l host friend)
        (add_friend-SameUsers env.friend_memory env.date env.now l l host friend (SameUsers-refl l))

  add_to_book-Kept :
      (event : BriefEvent) (str : Option Text) (described : Bool) (group : Option ℕ) (host : Ptr)
      (cmd : CmdLine)
      → Holds (Kept l) (add_to_book env event str described group host cmd l)
  add_to_book-Kept event str described group host cmd =
      Holds-read (Kept l) (param_0 cmd.params) _ (λ name.
        said-Kept event str (add_book env.new_book env.date env.now l host name described group) (
          add_book-SameUsers l env.new_book env.date env.now l host name described group
            (SameUsers-refl l)))

  add_option-Kept :
      (c : Letter) (ts : List Text) (host : Ptr) (cmd : CmdLine)
      → Holds (Kept l) (add_option env c ts host cmd l)
  add_option-Kept letter_f [] host cmd = done.0
  add_option-Kept letter_f (name ∷ ts) host cmd =
      Holds-read (Kept l) (find_target env name l) _ (add_found-Kept host name)
  add_option-Kept letter_d [] host cmd = done.0
  add_option-Kept letter_d (name ∷ []) host cmd = done.0
  add_option-Kept letter_d (name ∷ desp ∷ ts) host cmd =
      add_to_book-Kept add_desp (some desp) true none host cmd
  add_option-Kept letter_g [] host cmd = done.0
  add_option-Kept letter_g (name ∷ []) host cmd = done.0
  add_option-Kept letter_g (name ∷ group ∷ ts) host cmd =
      add_to_book-Kept add_group (some group) false env.group host cmd
  add_option-Kept letter_b ts host cmd = add_to_book-Kept add_book_evt none false none host cmd
  add_option-Kept letter_h ts host cmd = say-Kept hlp_buy none l (SameUsers-refl l)
  add_option-Kept letter_s ts host cmd = done.0
  add_option-Kept other_letter ts host cmd = done.0

  add_hosted-Kept :
      (c : ℕ) (cmd : CmdLine) (found : Option Ptr) → Holds (Kept l) (add_hosted env c cmd l found)
  add_hosted-Kept c cmd none = done.1
  add_hosted-Kept c cmd (some host) = add_option-Kept (letter c) cmd.params host cmd

  add_with-Kept :
      (user_name : Text) (cmd : CmdLine) (cs : List ℕ)
      → Holds (Kept l) (add_with env user_name l cmd cs)
  add_with-Kept user_name cmd [] = done.0
  add_with-Kept user_name cmd (c ∷ cs) =
      Holds-read (Kept l) (find_host env user_name l) _ (add_hosted-Kept c cmd)

  pub input_add-Kept :
      (user_name : Text) (cmd : CmdLine) → Holds (Kept l) (input_add env user_name l cmd)
  unfolding input_add
  input_add-Kept user_name cmd = add_with-Kept user_name cmd cmd.option

  rm_option-Kept :
      (c : Letter) (target : Text) (host : Ptr) → Holds (Kept l) (rm_option env c target host l)
  rm_option-Kept letter_b target host =
      said-Kept rm_book_evt none (rm_book l host target)
        (rm_book-SameUsers l l host target (SameUsers-refl l))
  rm_option-Kept letter_f target host =
      say_if_ok-Kept rm_book_evt none (rm_friend l host target)
        (rm_friend-SameUsers l l (SameUsers-refl l) host target)
  rm_option-Kept letter_h target host = say-Kept hlp_rm none l (SameUsers-refl l)
  rm_option-Kept letter_d target host = done.0
  rm_option-Kept letter_g target host = done.0
  rm_option-Kept letter_s target host = done.0
  rm_option-Kept other_letter target host = done.0

  rm_hosted-Kept :
      (c : ℕ) (target : Text) (found : Option Ptr) → Holds (Kept l) (rm_hosted env c target l found)
  rm_hosted-Kept c target none = done.1
  rm_hosted-Kept c target (some host) = rm_option-Kept (letter c) target host

  rm_with-Kept :
      (user_name : Text) (cs : List ℕ) (ts : List Text)
      → Holds (Kept l) (rm_with env user_name l cs ts)
  rm_with-Kept user_name [] ts = done.0
  rm_with-Kept user_name (c ∷ cs) [] = done.0
  rm_with-Kept user_name (c ∷ cs) (target ∷ ts) =
      Holds-read (Kept l) (find_host env user_name l) _ (rm_hosted-Kept c target)

  pub input_rm-Kept :
      (user_name : Text) (cmd : CmdLine) → Holds (Kept l) (input_rm env user_name l cmd)
  unfolding input_rm
  input_rm-Kept user_name cmd = rm_with-Kept user_name cmd.option cmd.params

  search_found-Kept : (found : Option Ptr) → Holds (Kept l) (search_found env l found)
  search_found-Kept none = done.1
  search_found-Kept (some p) = conclude-Kept true ok none l (SameUsers-refl l)

  search_option-Kept : (c : Letter) (target : Text) → Holds (Kept l) (search_option env c target l)
  search_option-Kept letter_b target =
      Holds-read (Kept l) (get_book_info env.node_memory l (by_book_name target) sort_undef) _
        (λ found. conclude-Kept true found.status none l (SameUsers-refl l))
  search_option-Kept letter_f target =
      Holds-read (Kept l) (find_target env target l) _ search_found-Kept
  search_option-Kept letter_h target = say-Kept hlp_search none l (SameUsers-refl l)
  search_option-Kept letter_d target = done.0
  search_option-Kept letter_g target = done.0
  search_option-Kept letter_s target = done.0
  search_option-Kept other_letter target = done.0

  search_with-Kept : (cs : List ℕ) (ts : List Text) → Holds (Kept l) (search_with env l cs ts)
  search_with-Kept [] ts = done.0
  search_with-Kept (c ∷ cs) [] = done.0
  search_with-Kept (c ∷ cs) (target ∷ ts) = search_option-Kept (letter c) target

  pub input_search-Kept : (cmd : CmdLine) → Holds (Kept l) (input_search env l cmd)
  unfolding input_search
  input_search-Kept cmd = search_with-Kept cmd.option cmd.params
