-- ===== src/Server/Commands/Mute.antt =====
-- eLibrary/src/client/eLibrary_client_parse.c: what the commands reply.
use morning_projects.Common.{
  ℕ, Bool, true, false, Option, none, some, List, [], ◌∷◌, if◌then◌else◌, refl, ◌≡◌, ◌⊎◌, inl, inr,
  subst, sym, ◌==◌,
}
use morning_projects.Server.{Ptr, Status, ok, fail, invalid_param, Acty, Library}
use morning_projects.Server.Bytes.{Text}
use morning_projects.Server.Friends.{rm_friend}
use morning_projects.Server.Books.{rm_book, buy_book}
use morning_projects.Server.Lookup.{by_book_name, sort_undef, get_book_info}
use morning_projects.Server.Brief.{
  BriefEvent, rm_book_evt, buy_book_evt, text_subject, brief_ex, printed, system_error,
  no_activities, brief_acty,
}
use morning_projects.Server.Commands.{
  CmdLine, CommandEnv, Letter, letter_f, letter_d, letter_g, letter_b, letter_h, letter_s,
  other_letter, letter, is_ok, replied, find_host, find_target, conclude, say_if_ok, rm_option,
  rm_hosted, rm_with, input_rm, search_found, search_option, search_with, input_search,
}
use morning_projects.Server.Commands.Queries.{
  Acties, conclude_query, invalid_query, tagged, input_whatsup, input_wow, input_buy,
}
use morning_projects.Server.Commands.Yields.{
  Holds, Holds-step, Holds-read, Holds-if, Holds-imp, SameUsers, Kept, SameUsers-refl,
}
use morning_projects.Server.Commands.Handlers.{buy_book-SameUsers}
use morning_projects.Server.Commands.Ways.{input_whatsup-Holds, input_wow-Holds, input_buy-Holds}

-- no reply, "System error." or "There are no activities yet!"
abbrev pub IsMute : Option Text → Type 0
IsMute reply =
    (reply ≡ none)
    ⊎ ((reply ≡ some (printed system_error)) ⊎ (reply ≡ some (printed no_activities)))

abbrev pub Mute : Option Text × Library → Type 0
Mute r = IsMute r.0

-- and the library as it was
abbrev pub Idle : Library → Option Text × Library → Type 0
Idle l r = IsMute r.0 × (r.1 ≡ l)

-- and the users of the library
abbrev pub Quiet : Library → Option Text × Library → Type 0
Quiet l r = IsMute r.0 × SameUsers l r.1

reply_if-Mute : (memory : Bool) → IsMute (if memory then some (printed system_error) else none)
reply_if-Mute true = inr (inl refl)
reply_if-Mute false = inl refl

module _ (env : CommandEnv) (u : Library) where
  replied-Idle :
      (reply : Option (Option Text)) → Holds IsMute reply → Holds (Idle u) (replied reply u)
  replied-Idle none h = tt
  replied-Idle (some t) h = (h, refl)

  brief_acty-Mute :
      (memory : Bool) (n : ℕ) (acts : List Acty) → Holds IsMute (brief_acty memory n acts)
  brief_acty-Mute false n acts = inl refl
  brief_acty-Mute true n [] = inr (inr refl)
  brief_acty-Mute true n (a ∷ acts) = Holds-if IsMute (n == 0) _ _ (inr (inr refl)) tt

  conclude_query-Idle :
      (parsed : Bool) (s : Status) (msg : Option Text) (acts : Acties)
      → (parsed ≡ true → is_ok s ≡ true)
      → Holds (Idle u) (conclude_query env parsed s msg acts u)
  conclude_query-Idle parsed ok msg (n, acts) h = (reply_if-Mute env.reply_memory, refl)
  conclude_query-Idle true fail msg (n, acts) h = let e = h refl in cc
  conclude_query-Idle true invalid_param msg (n, acts) h = let e = h refl in cc
  conclude_query-Idle false fail msg (n, acts) h =
      replied-Idle (brief_acty env.reply_memory n acts) (brief_acty-Mute env.reply_memory n acts)
  conclude_query-Idle false invalid_param msg (n, acts) h =
      replied-Idle (brief_acty env.reply_memory n acts) (brief_acty-Mute env.reply_memory n acts)

  invalid-Idle : Holds (Idle u) (invalid_query env u)
  invalid-Idle = (reply_if-Mute env.reply_memory, refl)

  replied-Quiet :
      (reply : Option (Option Text)) (v : Library)
      → Holds IsMute reply
      → SameUsers u v
      → Holds (Quiet u) (replied reply v)
  replied-Quiet none v h same = tt
  replied-Quiet (some t) v h same = (h, same)

  tagged-Quiet :
      (event : BriefEvent) (name : Text) (r : Status × Library)
      → SameUsers u r.1
      → Holds (Quiet u) (tagged env event name r)
  tagged-Quiet event name (ok, v) same =
      Holds-read (Quiet u) (brief_ex env.print env.brief_memory event (text_subject name)) _
        (λ msg. (reply_if-Mute env.reply_memory, same))
  tagged-Quiet event name (fail, v) same =
      replied-Quiet (brief_acty env.reply_memory 0 []) v (brief_acty-Mute env.reply_memory 0 [])
        same
  tagged-Quiet event name (invalid_param, v) same =
      replied-Quiet (brief_acty env.reply_memory 0 []) v (brief_acty-Mute env.reply_memory 0 [])
        same

  search_found-Idle : (found : Option Ptr) → Holds (Idle u) (search_found env u found)
  search_found-Idle none = (reply_if-Mute env.reply_memory, refl)
  search_found-Idle (some p) = (inl refl, refl)

  status-Idle : (s : Status) → Holds (Idle u) (conclude env true s none u)
  status-Idle ok = (inl refl, refl)
  status-Idle fail = (reply_if-Mute env.reply_memory, refl)
  status-Idle invalid_param = (reply_if-Mute env.reply_memory, refl)

  refused : Holds (Idle u) (conclude env false ok none u)
  refused = (reply_if-Mute env.reply_memory, refl)

  search_option-Idle : (c : Letter) (target : Text) → Holds (Idle u) (search_option env c target u)
  search_option-Idle letter_b target =
      Holds-read (Idle u) (get_book_info env.node_memory u (by_book_name target) sort_undef) _
        (λ found. status-Idle found.status)
  search_option-Idle letter_f target =
      Holds-read (Idle u) (find_target env target u) _ search_found-Idle
  search_option-Idle letter_h target = (reply_if-Mute env.brief_memory, refl)
  search_option-Idle letter_d target = refused
  search_option-Idle letter_g target = refused
  search_option-Idle letter_s target = refused
  search_option-Idle other_letter target = refused

  search_with-Idle : (cs : List ℕ) (ts : List Text) → Holds (Idle u) (search_with env u cs ts)
  search_with-Idle [] ts = refused
  search_with-Idle (c ∷ cs) [] = refused
  search_with-Idle (c ∷ cs) (target ∷ ts) = search_option-Idle (letter c) target

  said-Mute : (r : Status × Library) → Holds Mute (say_if_ok env rm_book_evt none r)
  said-Mute (ok, v) = reply_if-Mute env.brief_memory
  said-Mute (fail, v) = reply_if-Mute env.reply_memory
  said-Mute (invalid_param, v) = reply_if-Mute env.reply_memory

  rm_option-Mute :
      (c : Letter) (target : Text) (host : Ptr) → Holds Mute (rm_option env c target host u)
  rm_option-Mute letter_b target host = Holds-read Mute (rm_book u host target) _ said-Mute
  rm_option-Mute letter_f target host = said-Mute (rm_friend u host target)
  rm_option-Mute letter_h target host = reply_if-Mute env.brief_memory
  rm_option-Mute letter_d target host = reply_if-Mute env.reply_memory
  rm_option-Mute letter_g target host = reply_if-Mute env.reply_memory
  rm_option-Mute letter_s target host = reply_if-Mute env.reply_memory
  rm_option-Mute other_letter target host = reply_if-Mute env.reply_memory

  rm_hosted-Mute :
      (c : ℕ) (target : Text) (found : Option Ptr) → Holds Mute (rm_hosted env c target u found)
  rm_hosted-Mute c target none = reply_if-Mute env.reply_memory
  rm_hosted-Mute c target (some host) = rm_option-Mute (letter c) target host

  rm_with-Mute :
      (user_name : Text) (cs : List ℕ) (ts : List Text) → Holds Mute (rm_with env user_name u cs ts)
  rm_with-Mute user_name [] ts = reply_if-Mute env.reply_memory
  rm_with-Mute user_name (c ∷ cs) [] = reply_if-Mute env.reply_memory
  rm_with-Mute user_name (c ∷ cs) (target ∷ ts) =
      Holds-read Mute (find_host env user_name u) _ (rm_hosted-Mute c target)

module _ (env : CommandEnv) (l : Library) where
  pub Idle-Quiet : (r : Option Text × Library) → Idle l r → Quiet l r
  Idle-Quiet (reply, u) (mute, e) = (mute, subst (SameUsers l) (sym e) (SameUsers-refl l))

  pub input_whatsup-Idle :
      (user_name : Text) (cmd : CmdLine) → Holds (Idle l) (input_whatsup env user_name l cmd)
  input_whatsup-Idle =
      input_whatsup-Holds env l (Idle l) (conclude_query-Idle env l) (invalid-Idle env l)

  pub input_wow-Idle : (cmd : CmdLine) → Holds (Idle l) (input_wow env l cmd)
  input_wow-Idle = input_wow-Holds env l (Idle l) (conclude_query-Idle env l) (invalid-Idle env l)

  pub input_buy-Quiet :
      (user_name : Text) (cmd : CmdLine) → Holds (Quiet l) (input_buy env user_name l cmd)
  input_buy-Quiet =
      input_buy-Holds env l (Quiet l)
        (λ parsed s msg acts h.
          Holds-imp (Idle l) (Quiet l) (conclude_query env parsed s msg acts l)
            (conclude_query-Idle env l parsed s msg acts h) Idle-Quiet)
        (Holds-imp (Idle l) (Quiet l) (invalid_query env l) (invalid-Idle env l) Idle-Quiet)
        (λ host b name.
          Holds-step (Quiet l) (Kept l) (buy_book env.tag_memory env.date env.now l host b) _
            (buy_book-SameUsers l env.tag_memory env.date env.now l host b (SameUsers-refl l))
            (tagged-Quiet env l buy_book_evt name))

-- Whatever `rm`, `search`, `whatsup`, `wow` and `buy` do, where they answer at all the reply is NULL,
-- "System error." or "There are no activities yet!": no book, activity or success is ever
-- reported. `search`, `whatsup` and `wow` leave the library as it is.
pub input_buy-IsMute :
    (env : CommandEnv) (user_name : Text) (l : Library) (cmd : CmdLine)
    → Holds Mute (input_rm env user_name l cmd)
      × Holds Mute (input_buy env user_name l cmd)
      × Holds (Idle l) (input_search env l cmd)
      × Holds (Idle l) (input_whatsup env user_name l cmd)
      × Holds (Idle l) (input_wow env l cmd)
unfolding input_rm input_search
input_buy-IsMute env user_name l cmd = (
  rm_with-Mute env l user_name cmd.option cmd.params,
  Holds-imp (Quiet l) Mute (input_buy env user_name l cmd) (input_buy-Quiet env l user_name cmd)
      (λ r h. h.0),
  search_with-Idle env l cmd.option cmd.params,
  input_whatsup-Idle env l user_name cmd,
  input_wow-Idle env l cmd,
)
