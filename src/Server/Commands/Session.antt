-- ===== src/Server/Commands/Session.antt =====
-- eLibrary/src/client/eLibrary_client_parse.c: commands of several sessions and messages that arrive,
-- one after another.
use morning_projects.Common.{
  ℕ, zero, suc, Bool, Option, none, some, List, [], ◌∷◌, ◌≡◌, refl, ◌∙◌, ◌>>=◌,
}
use morning_projects.Server.{Ptr, User, Library}
use morning_projects.Server.Bytes.{Text}
use morning_projects.Server.Names.{FoundByName-same}
use morning_projects.Server.Messages.{SystemEvent}
use morning_projects.Server.Receiver.{input_msg}
use morning_projects.Server.Users.{find_user, get_user_info}
use morning_projects.Server.Users.Register.{IsRegistered, usernames}
use morning_projects.Server.Commands.{
  CmdLine, CommandEnv, Answer, input_add, input_rm, input_search,
}
use morning_projects.Server.Commands.Queries.{input_whatsup, input_wow, input_buy}
use morning_projects.Server.Commands.Inbox.{command_msg}
use morning_projects.Server.Commands.Yields.{
  Holds, Holds-step, Holds-imp, SameUsers, Kept, SameUsers-refl, SameUsers-trans,
}
use morning_projects.Server.Commands.Kept.{input_add-Kept, input_rm-Kept, input_search-Kept}
use morning_projects.Server.Commands.Mute.{
  Idle, Quiet, Idle-Quiet, input_whatsup-Idle, input_wow-Idle, input_buy-Quiet,
}
use morning_projects.Server.Commands.KeptInbox.{command_msg-Kept, input_msg-SameUsers}

pub data Command : Type 0 where
  cmd_add cmd_rm cmd_search cmd_whatsup cmd_wow cmd_buy cmd_msg : Command

abbrev pub answer : Command → CommandEnv → Text → Library → CmdLine → Answer
answer cmd_add env user_name l cmd = input_add env user_name l cmd
answer cmd_rm env user_name l cmd = input_rm env user_name l cmd
answer cmd_search env user_name l cmd = input_search env l cmd
answer cmd_whatsup env user_name l cmd = input_whatsup env user_name l cmd
answer cmd_wow env user_name l cmd = input_wow env l cmd
answer cmd_buy env user_name l cmd = input_buy env user_name l cmd
answer cmd_msg env user_name l cmd = command_msg env user_name l cmd

-- a command of the session of a user, and an event for the thread of messages
pub data Step : Type 0 where
  commands : Command → CommandEnv → Text → CmdLine → Step
  arrives : CommandEnv → SystemEvent → Step

abbrev pub library_of : Option (Option Text × Library) → Option Library
library_of none = none
library_of (some (reply, l)) = some l

abbrev pub take_step : Step → Library → Option Library
take_step (commands c env user_name cmd) l = library_of (answer c env user_name l cmd)
take_step (arrives env e) l = input_msg env.fuel env.target_locks env.msg_memory env.now l e

abbrev pub take_steps : List Step → Library → Option Library
take_steps [] l = some l
take_steps (s ∷ steps) l = take_step s l >>= λ u. take_steps steps u

answer-Kept :
    (c : Command) (env : CommandEnv) (user_name : Text) (l : Library) (cmd : CmdLine)
    → Holds (Kept l) (answer c env user_name l cmd)
answer-Kept cmd_add env user_name l cmd = input_add-Kept env l user_name cmd
answer-Kept cmd_rm env user_name l cmd = input_rm-Kept env l user_name cmd
answer-Kept cmd_search env user_name l cmd = input_search-Kept env l cmd
answer-Kept cmd_whatsup env user_name l cmd =
    Holds-imp (Idle l) (Kept l) (input_whatsup env user_name l cmd)
      (input_whatsup-Idle env l user_name cmd) (λ r h. (Idle-Quiet env l r h).1)
answer-Kept cmd_wow env user_name l cmd =
    Holds-imp (Idle l) (Kept l) (input_wow env l cmd) (input_wow-Idle env l cmd)
      (λ r h. (Idle-Quiet env l r h).1)
answer-Kept cmd_buy env user_name l cmd =
    Holds-imp (Quiet l) (Kept l) (input_buy env user_name l cmd)
      (input_buy-Quiet env l user_name cmd) (λ r h. h.1)
answer-Kept cmd_msg env user_name l cmd = command_msg-Kept env l user_name cmd

library_of-SameUsers :
    (l : Library) (a : Answer) → Holds (Kept l) a → Holds (SameUsers l) (library_of a)
library_of-SameUsers l none h = tt
library_of-SameUsers l (some (reply, u)) h = h

take_step-SameUsers : (s : Step) (l : Library) → Holds (SameUsers l) (take_step s l)
take_step-SameUsers (commands c env user_name cmd) l =
    library_of-SameUsers l (answer c env user_name l cmd) (answer-Kept c env user_name l cmd)
take_step-SameUsers (arrives env e) l =
    input_msg-SameUsers l env.msg_memory env.now env.fuel env.target_locks e

take_steps-SameUsers :
    (steps : List Step) (l u : Library) → SameUsers l u → Holds (SameUsers l) (take_steps steps u)
take_steps-SameUsers [] l u same = same
take_steps-SameUsers (s ∷ steps) l u same =
    Holds-step (SameUsers l) (SameUsers u) (take_step s u) _ (take_step-SameUsers s u)
      (λ v next. take_steps-SameUsers steps l v (SameUsers-trans l u same v next))

find_user-names :
    (n : ℕ) (users users' : Ptr → User) (ps : List Ptr) (name : Text)
    → ((p : Ptr) → (users' p).username ≡ (users p).username)
    → find_user n users' ps name none ≡ find_user n users ps name none
unfolding find_user
find_user-names zero users users' ps name same = refl
find_user-names (suc n) users users' [] name same = refl
find_user-names (suc n) users users' (p ∷ ps) name same =
    rw (same p, find_user-names n users users' ps name same) refl

-- the users of `l` are those of `u`, counted, and found as before
pub record Stays (l u : Library) : Type 0 where
  pub registered : IsRegistered u
  pub listed : u.listed ≡ l.listed
  pub found :
      (n : ℕ) (locks : Bool) (name : Text)
      → get_user_info n locks u name none ≡ get_user_info n locks l name none

SameUsers-Stays : (l u : Library) → IsRegistered l → SameUsers l u → Stays l u
unfolding get_user_info
SameUsers-Stays l u reg same = record {
  registered = record {
    counted = same.num_users ∙ (reg.counted ∙ (rw same.listed refl));
    found = rw same.listed (
        FoundByName-same (usernames l.users) (usernames u.users) same.names l.listed l.listed
          reg.found);
  };
  listed = same.listed;
  found = λ n locks name.
      rw same.listed (rw (find_user-names n l.users u.users l.listed name same.names) refl);
}

-- In a library whose users are counted and found under their names, let commands of any sessions and
-- events of the message thread follow one another, whatever they meet. Where none of them faults,
-- the same users are listed, counted and found under their names, and `getUserInfo` without an e-mail
-- answers for every name as before.
pub take_steps-IsRegistered :
    (l : Library) (steps : List Step) → IsRegistered l → Holds (Stays l) (take_steps steps l)
take_steps-IsRegistered l steps reg =
    Holds-imp (SameUsers l) (Stays l) (take_steps steps l)
      (take_steps-SameUsers steps l l (SameUsers-refl l)) (λ u same. SameUsers-Stays l u reg same)
